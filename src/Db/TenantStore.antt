-- ===== src/Db/TenantStore.antt =====
-- backend/internal/db/tenant_store.go: tenants and branches, with the constraints of migrations 001,
-- 002, 032, 034 and 035.
pub mod Laws
use tax_ocr.Prelude.{
  ℕ, String, ◌=ₛ◌, Bool, true, false, ◌&&◌, ◌||◌, not, if◌then◌else◌, Option, none, some, Text,
  ◌=ₜ◌, is_empty, runes, List, [], ◌∷◌, ◌++◌,
}
use tax_ocr.Db.Types.{Tenant, Branch, User, Vendor}
use tax_ocr.Db.Rows.{Keyed, exists, delete_rows, find, update_row}
use tax_ocr.Db.Monad.{
  not_found, invalid_input, invalid_tenant, duplicate_tax_id, query_failed, Result, ok, err, Tables,
  Db, raise, statement, ◌>>=◌, new_id,
}
use tax_ocr.Db.Keys.{fits}
use tax_ocr.Db.ReviewerStore.{row_or_not_found, unless_empty, is_some}

instance abbrev pub tenant_keyed : Keyed Tenant
tenant_keyed = record { key = λ t. t.id }

instance abbrev pub branch_keyed : Keyed Branch
branch_keyed = record { key = λ b. b.id }

abbrev pub unless_empty_text : Text → Text → Text
unless_empty_text new old = if is_empty new then old else new

-- CHECK (status IN ('active', 'inactive', 'suspended')), and VARCHAR(255), VARCHAR(13), VARCHAR(20)
tenant_allowed : Tenant → Bool
tenant_allowed t =
    (t.status =ₛ "active" || t.status =ₛ "inactive" || t.status =ₛ "suspended")
    && fits 255 t.name
    && fits 13 t.tax_id
    && fits 20 (runes t.business_type)

unfoldable pub get_tenant : String → Db Tenant
get_tenant id = statement (λ now t. row_or_not_found (find id t.tenants) t)

unfoldable pub get_branch : String → Db Branch
get_branch id = statement (λ now t. row_or_not_found (find id t.branches) t)

-- The lengths are checked before the keys.
insert_tenant : Tenant → Tables → Result (Tenant × Tables)
insert_tenant x t =
    if not (tenant_allowed x)
    then err query_failed
    else if is_some (find x.id t.tenants) || exists (λ y. y.tax_id =ₜ x.tax_id) t.tenants
    then err duplicate_tax_id
    else ok (x, record t { tenants = t.tenants ++ x ∷ [] })

new_tenant :
    (now : ℕ) (id : String) (name tax_id : Text) (business_type : String) (address : Text) → Tenant
new_tenant now id name tax_id business_type address = record {
  id = id;
  name = name;
  tax_id = tax_id;
  address = address;
  status = "active";
  business_type = if business_type =ₛ "" then "service" else business_type;
  suspended_at = none;
  suspension_reason = "";
  deleted_at = none;
  created_at = now;
  updated_at = now;
}

unfoldable pub create_tenant :
    (name tax_id : Text) (business_type : String) (address : Text) → Db Tenant
unfolding insert_tenant new_tenant tenant_allowed
create_tenant name tax_id business_type address =
    if is_empty name || is_empty tax_id then raise invalid_input else do
      id ← new_id
      statement (λ now t. insert_tenant (new_tenant now id name tax_id business_type address) t)

revise_tenant : ℕ → (name address : Text) (status business_type : String) → Tenant → Tenant
revise_tenant now name address status business_type t = record t {
  name = unless_empty_text name t.name;
  address = unless_empty_text address t.address;
  status = unless_empty status t.status;
  business_type = unless_empty business_type t.business_type;
  updated_at = now;
}

store_tenant : Option (Tenant × List Tenant) → Tables → Result (Tenant × Tables)
store_tenant none t = err not_found
store_tenant (some (x, xs)) t =
    if tenant_allowed x then ok (x, record t { tenants = xs }) else err query_failed

unfoldable pub update_tenant :
    (id : String) (name address : Text) (status business_type : String) → Db Tenant
unfolding revise_tenant store_tenant tenant_allowed
update_tenant id name address status business_type = statement λ now t.
    store_tenant
      (update_row id (λ x. true) (revise_tenant now name address status business_type) t.tenants) t

-- deleted_at IS NULL
is_kept : Tenant → Bool
is_kept t = not (is_some t.deleted_at)

is_trashed : Tenant → Bool
is_trashed t = is_some t.deleted_at

-- An Exec whose RowsAffected is 0 is ErrNotFound.
affected : Option (Tenant × List Tenant) → Tables → Result (Unit {0} × Tables)
affected none t = err not_found
affected (some (x, xs)) t = ok (tt, record t { tenants = xs })

trash : ℕ → Tenant → Tenant
trash now t = record t { deleted_at = some now; updated_at = now }

untrash : ℕ → Tenant → Tenant
untrash now t = record t { deleted_at = none; updated_at = now }

suspend : ℕ → String → Tenant → Tenant
suspend now reason t = record t {
  status = "suspended";
  suspended_at = some now;
  suspension_reason = reason;
  updated_at = now;
}

unsuspend : ℕ → Tenant → Tenant
unsuspend now t = record t {
  status = "active";
  suspended_at = none;
  suspension_reason = "";
  updated_at = now;
}

unfoldable pub delete_tenant : String → Db (Unit {0})
unfolding is_kept affected trash
delete_tenant id = statement (λ now t. affected (update_row id is_kept (trash now) t.tenants) t)

unfoldable pub restore_tenant : String → Db (Unit {0})
unfolding is_trashed affected untrash
restore_tenant id =
    statement (λ now t. affected (update_row id is_trashed (untrash now) t.tenants) t)

unfoldable pub suspend_tenant : (id reason : String) → Db (Unit {0})
unfolding is_kept affected suspend
suspend_tenant id reason =
    statement (λ now t. affected (update_row id is_kept (suspend now reason) t.tenants) t)

unfoldable pub unsuspend_tenant : String → Db (Unit {0})
unfolding is_kept affected unsuspend
unsuspend_tenant id =
    statement (λ now t. affected (update_row id is_kept (unsuspend now) t.tenants) t)

-- branches, users and classification_rules: tenant_id REFERENCES tenants ON DELETE CASCADE;
-- vendors: verified_by REFERENCES users ON DELETE SET NULL
unfoldable pub forget_verifier : (String → Bool) → List Vendor → List Vendor
forget_verifier gone [] = []
forget_verifier gone (v ∷ vs) =
    let rest = forget_verifier gone vs in
    (if gone v.verified_by then record v { verified_by = "" } else v) ∷ rest

branch_of : String → List Branch → String → Bool
branch_of id branches branch_id = exists (λ b. b.tenant_id =ₛ id && b.id =ₛ branch_id) branches

user_of : String → List User → String → Bool
user_of id users user_id = exists (λ u. u.tenant_id =ₛ id && u.id =ₛ user_id) users

cascade : String → Tables → Tables
cascade id t = record t {
  tenants = delete_rows (λ x. x.id =ₛ id) t.tenants;
  branches = delete_rows (λ b. b.tenant_id =ₛ id) t.branches;
  users = delete_rows (λ u. u.tenant_id =ₛ id) t.users;
  classification_rules = delete_rows (λ r. r.tenant_id =ₛ id) t.classification_rules;
  vendors = forget_verifier (user_of id t.users) t.vendors;
}

-- The other foreign keys, which refuse the deletion.
is_referenced : String → Tables → Bool
is_referenced id t =
    exists
      (λ d.
        d.tenant_id =ₛ id || branch_of id t.branches d.branch_id || user_of id t.users d.user_id)
      t.document_imports
    || exists
        (λ v.
          v.tenant_id =ₛ id
          || branch_of id t.branches v.branch_id
          || user_of id t.users v.verified_by)
        t.invoices
    || exists (λ x. x.tenant_id =ₛ id || branch_of id t.branches x.branch_id) t.invoice_items
    || exists (λ h. h.tenant_id =ₛ id || user_of id t.users h.resolved_by) t.hitl_queue
    || exists (λ c. user_of id t.users c.updated_by) t.reward_config

remove : String → Option Tenant → Tables → Result (Unit {0} × Tables)
remove id none t = err not_found
remove id (some x) t =
    if not (is_trashed x)
    then err not_found
    else if is_referenced id t
    then err query_failed
    else ok (tt, cascade id t)

unfoldable pub permanent_delete_tenant : String → Db (Unit {0})
unfolding forget_verifier branch_of user_of cascade is_referenced is_trashed remove
permanent_delete_tenant id = statement (λ now t. remove id (find id t.tenants) t)

new_branch : (now : ℕ) (id tenant_id : String) (name code address phone : Text) → Branch
new_branch now id tenant_id name code address phone = record {
  id = id;
  tenant_id = tenant_id;
  name = name;
  code = code;
  address = address;
  phone = phone;
  status = "active";
  created_at = now;
  updated_at = now;
}

-- UNIQUE (tenant_id, code)
has_code : String → Text → List Branch → Bool
has_code tenant_id code = exists (λ b. b.tenant_id =ₛ tenant_id && b.code =ₜ code)

-- CHECK (status IN ('active', 'inactive')), and VARCHAR(255), VARCHAR(50), VARCHAR(20)
branch_allowed : Branch → Bool
branch_allowed b =
    (b.status =ₛ "active" || b.status =ₛ "inactive")
    && fits 255 b.name
    && fits 50 b.code
    && fits 20 b.phone

-- The column code is NOT NULL, and an empty code is stored as NULL.
insert_branch : Branch → Tables → Result (Branch × Tables)
insert_branch b t =
    if is_empty b.code || not (branch_allowed b)
    then err query_failed
    else if is_some (find b.id t.branches) || has_code b.tenant_id b.code t.branches
    then err query_failed
    else if not (is_some (find b.tenant_id t.tenants))
    then err invalid_tenant
    else ok (b, record t { branches = t.branches ++ b ∷ [] })

unfoldable pub create_branch : (tenant_id : String) (name code address phone : Text) → Db Branch
unfolding new_branch insert_branch has_code branch_allowed
create_branch tenant_id name code address phone =
    if tenant_id =ₛ "" || is_empty name then raise invalid_input else do
      id ← new_id
      statement (λ now t. insert_branch (new_branch now id tenant_id name code address phone) t)

revise_branch : ℕ → (name address phone : Text) (status : String) → Branch → Branch
revise_branch now name address phone status b = record b {
  name = unless_empty_text name b.name;
  address = unless_empty_text address b.address;
  phone = unless_empty_text phone b.phone;
  status = unless_empty status b.status;
  updated_at = now;
}

store_branch : Option (Branch × List Branch) → Tables → Result (Branch × Tables)
store_branch none t = err not_found
store_branch (some (b, bs)) t =
    if branch_allowed b then ok (b, record t { branches = bs }) else err query_failed

unfoldable pub update_branch :
    (tenant_id branch_id : String) (name address phone : Text) (status : String) → Db Branch
unfolding revise_branch store_branch branch_allowed
update_branch tenant_id branch_id name address phone status = statement λ now t.
    store_branch
      (update_row branch_id (λ b. b.tenant_id =ₛ tenant_id)
        (revise_branch now name address phone status) t.branches)
      t
