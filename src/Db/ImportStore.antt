-- ===== src/Db/ImportStore.antt =====
-- backend/internal/db/tenant_store.go: the imports of documents, with the constraints of migration
-- 005.
pub mod Laws
use tax_ocr.Prelude.{
  ℕ, String, ◌=ₛ◌, Bool, true, ◌&&◌, ◌||◌, not, if◌then◌else◌, Option, none, some, List, [], ◌∷◌,
  ◌++◌, zero, suc,
}
use tax_ocr.Db.Types.{DocumentImport}
use tax_ocr.Db.Rows.{find, update_row}
use tax_ocr.Db.Monad.{
  invalid_tenant, invalid_branch, invalid_user, invalid_input, query_failed, Result, ok, err,
  Tables, Db, raise, statement, ◌>>=◌, new_id,
}
use tax_ocr.Db.ReviewerStore.{row_or_not_found}
use tax_ocr.Db.TenantStore.{tenant_keyed, branch_keyed}
use tax_ocr.Db.Keys.{user_keyed, import_keyed, refers}
use tax_ocr.Db.Listings.{newest_first}

-- CHECK (source_type IN …), CHECK (status IN …)
import_allowed : DocumentImport → Bool
import_allowed d =
    (d.source_type =ₛ "camera"
      || d.source_type =ₛ "upload"
      || d.source_type =ₛ "zip"
      || d.source_type =ₛ "gdrive"
      || d.source_type =ₛ "onedrive")
    && (d.status =ₛ "pending"
        || d.status =ₛ "processing"
        || d.status =ₛ "done"
        || d.status =ₛ "failed")

-- The foreign keys are checked in the order in which the table declares them.
insert_import : DocumentImport → Tables → Result (DocumentImport × Tables)
insert_import d t =
    if not (import_allowed d) || refers d.id t.document_imports
    then err query_failed
    else if not (refers d.tenant_id t.tenants)
    then err invalid_tenant
    else if not (refers d.branch_id t.branches)
    then err invalid_branch
    else if not (refers d.user_id t.users)
    then err invalid_user
    else ok (d, record t { document_imports = t.document_imports ++ d ∷ [] })

new_import :
    (now : ℕ) (id tenant_id branch_id user_id source_type source_url : String) (total_files : ℕ)
    → DocumentImport
new_import now id tenant_id branch_id user_id source_type source_url total_files = record {
  id = id;
  tenant_id = tenant_id;
  branch_id = branch_id;
  user_id = user_id;
  source_type = source_type;
  source_url = source_url;
  total_files = total_files;
  processed_files = 0;
  status = "pending";
  created_at = now;
  updated_at = now;
}

unfoldable pub create_document_import :
    (tenant_id branch_id user_id source_type source_url : String) (total_files : ℕ)
    → Db DocumentImport
unfolding import_allowed insert_import new_import
create_document_import tenant_id branch_id user_id source_type source_url total_files =
    if tenant_id =ₛ "" || branch_id =ₛ "" || user_id =ₛ "" || source_type =ₛ ""
    then raise invalid_input
    else do
      id ← new_id
      statement λ now t.
          insert_import
            (new_import now id tenant_id branch_id user_id source_type source_url total_files) t

unfoldable pub get_document_import : String → Db DocumentImport
get_document_import id = statement (λ now t. row_or_not_found (find id t.document_imports) t)

-- An Exec whose RowsAffected nobody reads: an id without a row is no error.
store_import : Option (DocumentImport × List DocumentImport) → Tables → Result (Unit {0} × Tables)
store_import none t = ok (tt, t)
store_import (some (d, ds)) t =
    if import_allowed d then ok (tt, record t { document_imports = ds }) else err query_failed

unfoldable pub update_document_import_status : (id status : String) → Db (Unit {0})
unfolding store_import import_allowed
update_document_import_status id status = statement λ now t.
    store_import
      (update_row id (λ d. true) (λ d. record d { status = status; updated_at = now })
        t.document_imports)
      t

take : {A : Type 0} → ℕ → List A → List A
take zero xs = []
take (suc n) [] = []
take (suc n) (x ∷ xs) = x ∷ take n xs

unfoldable pub list_document_imports_by_user : (user_id : String) → Db (List DocumentImport)
unfolding take
list_document_imports_by_user user_id = statement λ now t.
    ok
      (take 50 (newest_first (λ d. d.user_id =ₛ user_id) (λ d. d.created_at) t.document_imports), t)
