-- ===== src/Db/VendorStore/Laws.antt =====
-- What becomes of a vendor that was verified.
use tax_ocr.Prelude.{
  ℕ, String, ◌=ₛ◌, ◌≡◌, refl, ◌∙◌, subst, true, Option, none, some, Text, is_empty, List, [], ◌∷◌,
  Bool-cases, inl, inr, ◌⊎◌, arith,
}
use tax_ocr.Db.Types.{Vendor, Invoice}
use tax_ocr.Db.Rows.{find, find-append, find-set_row, set_row, update_row, update_row_changed}
use tax_ocr.Db.Monad.{ok, Tables}
use tax_ocr.Db.Monad.Keeps.{
  ok_tables, Keeps, Keeps-raise, Keeps-new_id, Keeps-bind, Keeps-statement,
}
use tax_ocr.Db.UserStore.{first_row}
use tax_ocr.Db.Keys.{vendor_keyed, invoice_keyed, refers}
use tax_ocr.Db.VendorStore.{
  has_tax_id, vendor_allowed, new_vendor, refresh_vendor, upsert, upsert_vendor_from_ocr, link,
  store_link, link_invoice_vendor,
}

-- The data of a verified vendor, as `v` has them.
pub record SameData (v w : Vendor) : Type 0 where
  pub is_verified : w.verified ≡ true
  pub tax_id : w.tax_id ≡ v.tax_id
  pub name : w.name ≡ v.name
  pub address : w.address ≡ v.address
  pub branch_code : w.branch_code ≡ v.branch_code
  pub branch_name : w.branch_name ≡ v.branch_name
  pub phone : w.phone ≡ v.phone
  pub verified_by : w.verified_by ≡ v.verified_by

-- The vendor `id` is there with the data of `v`.
abbrev pub StaysVerified : String → Vendor → Tables → Type 0
StaysVerified id v t = (w : Vendor) × (find id t.vendors ≡ some w) × SameData v w

refresh_vendor-SameData :
    (now : ℕ) (name address branch_code : Text) (v w : Vendor)
    → SameData v w
    → SameData v (refresh_vendor now name address branch_code w)
unfolding refresh_vendor
refresh_vendor-SameData now name address branch_code v w s = record {
  is_verified = s.is_verified;
  tax_id = s.tax_id;
  name = rw s.is_verified s.name;
  address = rw s.is_verified s.address;
  branch_code = rw s.is_verified s.branch_code;
  branch_name = s.branch_name;
  phone = s.phone;
  verified_by = s.verified_by;
}

module _ (id : String) (v : Vendor) where
  upsert-StaysVerified :
      (new : Vendor) (now : ℕ) (name address branch_code : Text) (o : Option Vendor) (t t' : Tables)
      (a : Vendor)
      → StaysVerified id v t
      → upsert new now name address branch_code o t ≡ ok (a, t')
      → StaysVerified id v t'
  unfolding upsert refresh_vendor
  upsert-StaysVerified new now name address branch_code none t t' a (w, is, same) e =
      elim (Bool-cases (refers new.id t.vendors)) [
        | inl q ↦ absurd (ground arith)
        | inr q ↦
            subst (StaysVerified id v) (ok_tables new a _ t' (rw q at e))
              (w, find-append id t.vendors (new ∷ []) w is, same)
      ]
  upsert-StaysVerified new now name address branch_code (some x) t t' a (w, is, same) e =
      let refresh = refresh_vendor now name address branch_code in
      let found = find-set_row x.id id (λ z. true) refresh t.vendors (λ z. refl) in
      subst (StaysVerified id v) (ok_tables (refresh x) a _ t' e) (elim (Bool-cases (x.id =ₛ id)) [
        | inl q ↦ (
          refresh w,
          found ∙ rw (q, is) refl,
          refresh_vendor-SameData now name address branch_code v w same,
        )
        | inr q ↦ (w, found ∙ rw q is, same)
      ])

  pub upsert_vendor_from_ocr-StaysVerified :
      (tax_id name address branch_code : Text)
      → Keeps (StaysVerified id v) (upsert_vendor_from_ocr tax_id name address branch_code)
  unfolding upsert_vendor_from_ocr
  upsert_vendor_from_ocr-StaysVerified tax_id name address branch_code =
      elim (Bool-cases (is_empty tax_id)) [
        | inl e ↦ rw e (Keeps-raise _)
        | inr e ↦ rw e (
            Keeps-bind Keeps-new_id λ id'. Keeps-statement _ λ now t a t' h q.
              elim (Bool-cases
                (vendor_allowed (new_vendor now id' tax_id name address branch_code) t)) [
                  | inl g ↦
                      upsert-StaysVerified _ now name address branch_code _ t t' a h (rw g at q)
                  | inr g ↦ absurd (ground (arith, g, q))
                ])
      ]

upsert_tables :
    (new : Vendor) (now : ℕ) (name address branch_code : Text) (o : Option Vendor) (t t' : Tables)
    (a : Vendor)
    → upsert new now name address branch_code o t ≡ ok (a, t')
    → t' ≡ record t { vendors = t'.vendors }
unfolding upsert
upsert_tables new now name address branch_code none t t' a e = ground arith
upsert_tables new now name address branch_code (some v) t t' a e = ground arith

-- The upsert writes to vendors alone.
pub upsert_vendor_from_ocr-keeps :
    {P : Tables → Type 0}
    → ((t : Tables) (vs : List Vendor) → P t → P (record t { vendors = vs }))
    → (tax_id name address branch_code : Text)
    → Keeps P (upsert_vendor_from_ocr tax_id name address branch_code)
unfolding upsert_vendor_from_ocr
upsert_vendor_from_ocr-keeps free tax_id name address branch_code =
    elim (Bool-cases (is_empty tax_id)) [
      | inl e ↦ rw e (Keeps-raise _)
      | inr e ↦ rw e (
          Keeps-bind Keeps-new_id λ id'. Keeps-statement _ λ now t a t' h q.
            elim (Bool-cases
              (vendor_allowed (new_vendor now id' tax_id name address branch_code) t)) [
                | inl g ↦
                    rw
                      (upsert_tables (new_vendor now id' tax_id name address branch_code) now name
                        address branch_code (first_row (has_tax_id tax_id) t.vendors) t t' a
                        (rw g at q))
                      (free t _ h)
                | inr g ↦ absurd (ground (arith, g, q))
              ])
    ]

store_link_changed :
    (vendor_id : String) (o : Option (Invoice × List Invoice)) (t t' : Tables) (a : Unit {0})
    → store_link vendor_id o t ≡ ok (a, t')
    → (t' ≡ t)
      ⊎ ((v : Invoice) × (vs : List Invoice) × (o ≡ some (v, vs))
          × (t' ≡ record t { invoices = vs }))
unfolding store_link
store_link_changed vendor_id none t t' a e = inl (ground arith)
store_link_changed vendor_id (some (v, vs)) t t' a e = inr (v, vs, refl, ground arith)

-- The link writes to the row of the invoice alone.
pub link_invoice_vendor_changed :
    {P : Tables → Type 0} (invoice_id vendor_id : String)
    → ((now : ℕ) (t : Tables)
        → P t
        → P (record t {
          invoices = set_row invoice_id (λ v. true) (link now vendor_id) t.invoices;
        }))
    → Keeps P (link_invoice_vendor invoice_id vendor_id)
unfolding link_invoice_vendor
link_invoice_vendor_changed {P} invoice_id vendor_id keep = Keeps-statement _ λ now t a t' h e.
    elim (store_link_changed vendor_id
      (update_row invoice_id (λ v. true) (link now vendor_id) t.invoices) t t' a e) [
        | inl same ↦ rw same h
        | inr (v, vs, row, is) ↦
            let (x, _, _, _, table) =
              update_row_changed invoice_id (λ z. true) (link now vendor_id) t.invoices v vs row in
            rw (is, table) (keep now t h)
      ]

-- It writes to invoices alone.
pub link_invoice_vendor-keeps :
    {P : Tables → Type 0}
    → ((t : Tables) (vs : List Invoice) → P t → P (record t { invoices = vs }))
    → (invoice_id vendor_id : String) → Keeps P (link_invoice_vendor invoice_id vendor_id)
link_invoice_vendor-keeps free invoice_id vendor_id =
    link_invoice_vendor_changed invoice_id vendor_id (λ now t h. free t _ h)
