-- ===== src/Db/InvoiceStore.antt =====
-- backend/internal/db/invoice_store.go: the invoices, with the constraints of the migrations 006,
-- 022 to 027, 029 to 032. `clock` is EXTRACT(YEAR FROM …) and EXTRACT(MONTH FROM …) of a time.
pub mod Update
pub mod Items
pub mod Delete
pub mod Laws
use tax_ocr.Prelude.{
  ℕ, ◌+◌, ◌*◌, ◌^◌, String, ◌=ₛ◌, Bool, true, false, ◌&&◌, ◌||◌, not, if◌then◌else◌, Option, none,
  some, Text, ◌=ₜ◌, is_empty, List, [], ◌∷◌, ◌++◌, ◌==◌, leb, ltb, runes, reverse,
}
use tax_ocr.Db.Types.{Invoice}
use tax_ocr.Db.Rows.{find, exists, update_row}
use tax_ocr.Db.Monad.{
  not_found, invalid_input, query_failed, Result, ok, err, Tables, Db, raise, statement, ◌>>=◌,
  new_id, next_invoice_no,
}
use tax_ocr.Db.ReviewerStore.{is_some}
use tax_ocr.Db.TenantStore.{tenant_keyed, branch_keyed}
use tax_ocr.Db.Keys.{user_keyed, import_keyed, invoice_keyed, vendor_keyed, refers, fits, in_range}
use tax_ocr.Db.Listings.{newest_first}

-- CHECK (status IN ('pending', 'verified', 'conflict')), and what the types of the columns admit.
unfoldable pub invoice_allowed : Invoice → Bool
invoice_allowed v =
    (v.status =ₛ "pending" || v.status =ₛ "verified" || v.status =ₛ "conflict")
    && fits 50 (runes v.doc_type)
    && in_range 3 v.vat_rate
    && fits 255 v.vendor_name
    && fits 13 v.vendor_tax_id
    && fits 50 v.vendor_branch_code
    && fits 255 v.buyer_name
    && fits 13 v.buyer_tax_id
    && fits 50 v.buyer_branch_code
    && in_range 13 v.vat_exempt_amount
    && in_range 13 v.vat_inclusive_subtotal
    && in_range 13 v.discount_amount
    && in_range 13 v.total_before_vat
    && in_range 13 v.vat_amount
    && in_range 13 v.total_amount

-- An empty id is NULL, which refers to nothing.
abbrev pub null_or : String → Bool → Bool
null_or id exists = id =ₛ "" || exists

refers_to_rows : Invoice → Tables → Bool
refers_to_rows v t =
    refers v.tenant_id t.tenants
    && refers v.branch_id t.branches
    && null_or v.document_import_id (refers v.document_import_id t.document_imports)
    && null_or v.verified_by (refers v.verified_by t.users)
    && null_or v.vendor_id (refers v.vendor_id t.vendors)
    && null_or v.duplicate_of (v.duplicate_of =ₛ v.id || refers v.duplicate_of t.invoices)

-- The index uq_invoices_vendor_doc_no on (tenant_id, vendor_tax_id, invoice_doc_no), of the
-- invoices where neither is NULL and which duplicate none.
unfoldable pub is_original : Invoice → Bool
is_original v =
    not (is_empty v.vendor_tax_id) && not (is_empty v.invoice_doc_no) && v.duplicate_of =ₛ ""

unfoldable pub same_document : Invoice → Invoice → Bool
same_document v x =
    v.tenant_id =ₛ x.tenant_id
    && v.vendor_tax_id =ₜ x.vendor_tax_id
    && v.invoice_doc_no =ₜ x.invoice_doc_no

unfoldable pub clashes : Invoice → Invoice → Bool
clashes v x = not (v.id =ₛ x.id) && is_original v && is_original x && same_document v x

-- What the constraints require of a row that is written.
unfoldable pub admits : Tables → Invoice → Bool
unfolding refers_to_rows
admits t v = invoice_allowed v && refers_to_rows v t && not (exists (clashes v) t.invoices)

-- The row as a query reads it: COALESCE(doc_type, 'tax_invoice').
abbrev pub shown : Invoice → Invoice
shown v = record v { doc_type = if v.doc_type =ₛ "" then "tax_invoice" else v.doc_type }

shown_row : Option Invoice → Tables → Result (Invoice × Tables)
shown_row none t = err not_found
shown_row (some v) t = ok (shown v, t)

unfoldable pub get_invoice : String → Db Invoice
unfolding shown_row
get_invoice id = statement (λ now t. shown_row (find id t.invoices) t)

-- ORDER BY accounting_year DESC, accounting_month DESC, created_at DESC as one number; a month is
-- below 16 and a time below 2 ^ 40.
period_order : Invoice → ℕ
period_order v = (v.accounting_year * 16 + v.accounting_month) * 2 ^ 40 + v.created_at

-- An empty string or a number 0 leaves its condition out.
is_wanted : (tenant_id status doc_type : String) (year month : ℕ) → Invoice → Bool
is_wanted tenant_id status doc_type year month v =
    (tenant_id =ₛ "" || v.tenant_id =ₛ tenant_id)
    && (status =ₛ "" || v.status =ₛ status)
    && (doc_type =ₛ "" || (shown v).doc_type =ₛ doc_type)
    && (year == 0 || v.accounting_year == year)
    && (month == 0 || v.accounting_month == month)

shown_rows : List Invoice → List Invoice
shown_rows [] = []
shown_rows (v ∷ vs) = shown v ∷ shown_rows vs

unfoldable pub list_invoices :
    (tenant_id status doc_type : String) (acct_year acct_month : ℕ) → Db (List Invoice)
unfolding period_order is_wanted shown_rows
list_invoices tenant_id status doc_type acct_year acct_month = statement λ now t. ok (
  shown_rows (
      newest_first (is_wanted tenant_id status doc_type acct_year acct_month) period_order
        t.invoices),
  t,
)

-- The oldest original of the tenant with the same number of the same vendor.
is_candidate :
    (tenant_id : String) (vendor_tax_id invoice_doc_no : Text) (exclude_id : String)
    → Invoice
    → Bool
is_candidate tenant_id vendor_tax_id invoice_doc_no exclude_id v =
    v.tenant_id =ₛ tenant_id
    && v.vendor_tax_id =ₜ vendor_tax_id
    && v.invoice_doc_no =ₜ invoice_doc_no
    && not (v.id =ₛ exclude_id)
    && v.duplicate_of =ₛ ""

oldest : List Invoice → Option Invoice
oldest [] = none
oldest (v ∷ []) = some v
oldest (v ∷ w ∷ vs) = oldest (w ∷ vs)

unfoldable pub find_duplicate_invoice :
    (tenant_id : String) (vendor_tax_id invoice_doc_no : Text) (exclude_id : String) → Db Invoice
unfolding is_candidate oldest shown_row
find_duplicate_invoice tenant_id vendor_tax_id invoice_doc_no exclude_id =
    if tenant_id =ₛ "" || is_empty vendor_tax_id || is_empty invoice_doc_no
    then raise not_found
    else statement λ now t.
      shown_row
        (oldest (
          newest_first (is_candidate tenant_id vendor_tax_id invoice_doc_no exclude_id)
            (λ v. v.created_at) t.invoices))
        t

module _ (clock : ℕ → ℕ × ℕ) where
  -- The columns that the INSERT leaves out have their defaults.
  new_invoice : ℕ → String → ℕ → Invoice → Invoice
  new_invoice now id invoice_no input = record input {
    id = id;
    invoice_no = invoice_no;
    invoice_year = 0;
    invoice_month = 0;
    invoice_day = 0;
    accounting_year = (clock now).0;
    accounting_month = (clock now).1;
    vendor_id = "";
    duplicate_of = "";
    status = "pending";
    invalid_reason = "";
    verified_by = "";
    verified_at = none;
    created_at = now;
    updated_at = now;
  }

  insert_invoice : Invoice → Tables → Result (Invoice × Tables)
  insert_invoice v t =
      if refers v.id t.invoices || not (admits t v)
      then err query_failed
      else ok (shown v, record t { invoices = t.invoices ++ v ∷ [] })

  unfoldable pub create_invoice : Invoice → Db Invoice
  unfolding new_invoice insert_invoice
  create_invoice input =
      if input.tenant_id =ₛ "" || input.branch_id =ₛ "" || input.file_path =ₛ ""
      then raise invalid_input
      else do
        id ← new_id
        invoice_no ← next_invoice_no
        statement (λ now t. insert_invoice (new_invoice now id invoice_no input) t)
