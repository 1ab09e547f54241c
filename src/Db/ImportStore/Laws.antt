-- ===== src/Db/ImportStore/Laws.antt =====
-- What the statements on document_imports keep.
use tax_ocr.Prelude.{String, ◌≡◌, subst, true, Option, none, some, List, arith}
use tax_ocr.Db.Types.{DocumentImport}
use tax_ocr.Db.Rows.{update_row}
use tax_ocr.Db.Monad.{ok, Tables}
use tax_ocr.Db.Monad.Keeps.{Keeps, Keeps-statement}
use tax_ocr.Db.ReviewerStore.Settled.{row_or_not_found_same}
use tax_ocr.Db.Keys.{import_keyed}
use tax_ocr.Db.ImportStore.{store_import, update_document_import_status, get_document_import}

store_import_tables :
    (o : Option (DocumentImport × List DocumentImport)) (t t' : Tables) (a : Unit {0})
    → store_import o t ≡ ok (a, t')
    → t' ≡ record t { document_imports = t'.document_imports }
unfolding store_import
store_import_tables none t t' a e = ground arith
store_import_tables (some (d, ds)) t t' a e = ground arith

module _ {P : Tables → Type 0}
    (free : (t : Tables) (ds : List DocumentImport)
      → P t
      → P (record t { document_imports = ds })) where
  pub update_document_import_status-keeps :
      (id status : String) → Keeps P (update_document_import_status id status)
  unfolding update_document_import_status
  update_document_import_status-keeps id status = Keeps-statement _ λ now t a t' h e.
      rw
        (store_import_tables
          (update_row id (λ d. true) (λ d. record d { status = status; updated_at = now })
            t.document_imports)
          t t' a e)
        (free t _ h)

pub get_document_import-keeps :
    {P : Tables → Type 0} (id : String) → Keeps P (get_document_import id)
unfolding get_document_import
get_document_import-keeps {P} id =
    Keeps-statement _ λ now t a t' h e. subst P (row_or_not_found_same _ t t' a e) h
