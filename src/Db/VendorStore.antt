-- ===== src/Db/VendorStore.antt =====
-- backend/internal/db/vendor_store.go, with the constraints of migration 031.
pub mod Laws
use tax_ocr.Prelude.{
  ℕ, String, ◌=ₛ◌, Bool, true, false, ◌&&◌, ◌||◌, if◌then◌else◌, Option, none, some, Text, ◌=ₜ◌,
  is_empty, List, [], ◌∷◌, ◌++◌,
}
use tax_ocr.Db.Types.{Vendor, Invoice}
use tax_ocr.Db.Rows.{find, set_row, update_row}
use tax_ocr.Db.Monad.{
  not_found, invalid_input, query_failed, Result, ok, err, Tables, Db, raise, statement, ◌>>=◌,
  new_id,
}
use tax_ocr.Db.ReviewerStore.{row_or_not_found}
use tax_ocr.Db.TenantStore.{unless_empty_text}
use tax_ocr.Db.UserStore.{first_row}
use tax_ocr.Db.Keys.{user_keyed, vendor_keyed, invoice_keyed, refers, fits}

has_tax_id : Text → Vendor → Bool
has_tax_id tax_id v = v.tax_id =ₜ tax_id

unfoldable pub find_vendor_by_tax_id : Text → Db Vendor
unfolding has_tax_id
find_vendor_by_tax_id tax_id =
    statement (λ now t. row_or_not_found (first_row (has_tax_id tax_id) t.vendors) t)

unfoldable pub get_vendor : String → Db Vendor
get_vendor id = statement (λ now t. row_or_not_found (find id t.vendors) t)

-- VARCHAR(13), VARCHAR(255), VARCHAR(10), VARCHAR(100), VARCHAR(20); verified_by REFERENCES users
vendor_allowed : Vendor → Tables → Bool
vendor_allowed v t =
    fits 13 v.tax_id
    && fits 255 v.name
    && fits 10 v.branch_code
    && fits 100 v.branch_name
    && fits 20 v.phone
    && (v.verified_by =ₛ "" || refers v.verified_by t.users)

new_vendor : ℕ → String → (tax_id name address branch_code : Text) → Vendor
new_vendor now id tax_id name address branch_code = record {
  id = id;
  tax_id = tax_id;
  name = name;
  address = address;
  branch_code = branch_code;
  branch_name = [];
  phone = [];
  verified = false;
  verified_by = "";
  verified_at = none;
  created_at = now;
  updated_at = now;
}

-- ON CONFLICT (tax_id) DO UPDATE
refresh_vendor : ℕ → (name address branch_code : Text) → Vendor → Vendor
refresh_vendor now name address branch_code v = record v {
  name = if v.verified then v.name else name;
  address = if v.verified then v.address else address;
  branch_code = if v.verified then v.branch_code else branch_code;
  updated_at = now;
}

-- The row that is to be inserted is checked against the lengths before the conflict is looked for.
upsert :
    Vendor
    → ℕ
    → (name address branch_code : Text) → Option Vendor
    → Tables
    → Result (Vendor × Tables)
upsert new now name address branch_code none t =
    if refers new.id t.vendors
    then err query_failed
    else ok (new, record t { vendors = t.vendors ++ new ∷ [] })
upsert new now name address branch_code (some v) t =
    let refresh = refresh_vendor now name address branch_code in
    ok (refresh v, record t { vendors = set_row v.id (λ x. true) refresh t.vendors })

unfoldable pub upsert_vendor_from_ocr : (tax_id name address branch_code : Text) → Db Vendor
unfolding has_tax_id vendor_allowed new_vendor refresh_vendor upsert
upsert_vendor_from_ocr tax_id name address branch_code =
    if is_empty tax_id then raise invalid_input else do
      id ← new_id
      statement λ now t.
          let new = new_vendor now id tax_id name address branch_code in
          if vendor_allowed new t
          then upsert new now name address branch_code (first_row (has_tax_id tax_id) t.vendors) t
          else err query_failed

confirm :
    ℕ → (user_id : String) (name address branch_code branch_name phone : Text) → Vendor → Vendor
confirm now user_id name address branch_code branch_name phone v = record v {
  name = unless_empty_text name v.name;
  address = unless_empty_text address v.address;
  branch_code = unless_empty_text branch_code v.branch_code;
  branch_name = unless_empty_text branch_name v.branch_name;
  phone = unless_empty_text phone v.phone;
  verified = true;
  verified_by = user_id;
  verified_at = some now;
  updated_at = now;
}

store_vendor : Option (Vendor × List Vendor) → Tables → Result (Vendor × Tables)
store_vendor none t = err not_found
store_vendor (some (v, vs)) t =
    if vendor_allowed v t then ok (v, record t { vendors = vs }) else err query_failed

unfoldable pub verify_vendor :
    (id user_id : String) (name address branch_code branch_name phone : Text) → Db Vendor
unfolding confirm store_vendor vendor_allowed
verify_vendor id user_id name address branch_code branch_name phone = statement λ now t.
    store_vendor
      (update_row id (λ v. true) (confirm now user_id name address branch_code branch_name phone)
        t.vendors)
      t

unfoldable pub link : ℕ → String → Invoice → Invoice
link now vendor_id v = record v { vendor_id = vendor_id; updated_at = now }

-- vendor_id REFERENCES vendors
store_link : String → Option (Invoice × List Invoice) → Tables → Result (Unit {0} × Tables)
store_link vendor_id none t = ok (tt, t)
store_link vendor_id (some (v, vs)) t =
    if vendor_id =ₛ "" || refers vendor_id t.vendors
    then ok (tt, record t { invoices = vs })
    else err query_failed

unfoldable pub link_invoice_vendor : (invoice_id vendor_id : String) → Db (Unit {0})
unfolding link store_link
link_invoice_vendor invoice_id vendor_id = statement λ now t.
    store_link vendor_id (update_row invoice_id (λ v. true) (link now vendor_id) t.invoices) t
