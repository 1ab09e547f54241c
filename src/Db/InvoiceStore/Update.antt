-- ===== src/Db/InvoiceStore/Update.antt =====
-- backend/internal/db/invoice_store.go: the statements that change an invoice.
pub mod Laws
use tax_ocr.Prelude.{
  ℕ, ◌+◌, ◌*◌, ◌^◌, String, ◌=ₛ◌, Bool, true, false, ◌&&◌, ◌||◌, not, if◌then◌else◌, Option, none,
  some, Text, ◌=ₜ◌, is_empty, List, [], ◌∷◌, ◌++◌, ◌==◌, leb, ltb, runes, reverse,
}
use tax_ocr.Db.Types.{Invoice, Numeric}
use tax_ocr.Db.Rows.{update_row}
use tax_ocr.Db.Monad.{
  not_found, invalid_input, query_failed, Result, ok, err, Tables, Db, raise, statement,
}
use tax_ocr.Db.ReviewerStore.{unless_empty}
use tax_ocr.Db.TenantStore.{unless_empty_text}
use tax_ocr.Db.Keys.{invoice_keyed}
use tax_ocr.Db.InvoiceStore.{admits, shown}

pub record InvoiceUpdate : Type 0 where
  pub doc_type : String
  pub vat_inclusive : Bool
  pub vat_rate : Numeric
  pub vendor_name : Text
  pub vendor_tax_id : Text
  pub vendor_address : Text
  pub vendor_branch_code : Text
  pub buyer_name : Text
  pub buyer_tax_id : Text
  pub buyer_address : Text
  pub buyer_branch_code : Text
  pub invoice_doc_no : Text
  pub invoice_date : Text
  pub vat_exempt_amount : Numeric
  pub vat_inclusive_subtotal : Numeric
  pub discount_amount : Numeric
  pub total_before_vat : Numeric
  pub vat_amount : Numeric
  pub total_amount : Numeric
  pub vat_math_ok : Bool
  pub status : String
  pub invoice_year : ℕ
  pub invoice_month : ℕ
  pub invoice_day : ℕ
  pub accounting_year : ℕ
  pub accounting_month : ℕ
  pub duplicate_of : String
  pub invalid_reason : String

abbrev pub zero_amount : Numeric
zero_amount = record { is_negative = false; ten_thousandths = 0 }

-- InvoiceUpdate{}
abbrev pub no_update : InvoiceUpdate
no_update = record {
  doc_type = "";
  vat_inclusive = false;
  vat_rate = zero_amount;
  vendor_name = [];
  vendor_tax_id = [];
  vendor_address = [];
  vendor_branch_code = [];
  buyer_name = [];
  buyer_tax_id = [];
  buyer_address = [];
  buyer_branch_code = [];
  invoice_doc_no = [];
  invoice_date = [];
  vat_exempt_amount = zero_amount;
  vat_inclusive_subtotal = zero_amount;
  discount_amount = zero_amount;
  total_before_vat = zero_amount;
  vat_amount = zero_amount;
  total_amount = zero_amount;
  vat_math_ok = false;
  status = "";
  invoice_year = 0;
  invoice_month = 0;
  invoice_day = 0;
  accounting_year = 0;
  accounting_month = 0;
  duplicate_of = "";
  invalid_reason = "";
}

unless_zero : Numeric → Numeric → Numeric
unless_zero new old = if new.ten_thousandths == 0 then old else new

unless_none : ℕ → ℕ → ℕ
unless_none new old = if new == 0 then old else new

-- SET … of UpdateInvoiceData
read_into : ℕ → InvoiceUpdate → Invoice → Invoice
read_into now u v = record v {
  doc_type = unless_empty u.doc_type v.doc_type;
  vat_inclusive = u.vat_inclusive;
  vat_rate = unless_zero u.vat_rate v.vat_rate;
  vendor_name = unless_empty_text u.vendor_name v.vendor_name;
  vendor_tax_id = unless_empty_text u.vendor_tax_id v.vendor_tax_id;
  vendor_address = unless_empty_text u.vendor_address v.vendor_address;
  vendor_branch_code = unless_empty_text u.vendor_branch_code v.vendor_branch_code;
  buyer_name = unless_empty_text u.buyer_name v.buyer_name;
  buyer_tax_id = unless_empty_text u.buyer_tax_id v.buyer_tax_id;
  buyer_address = unless_empty_text u.buyer_address v.buyer_address;
  buyer_branch_code = unless_empty_text u.buyer_branch_code v.buyer_branch_code;
  invoice_doc_no = unless_empty_text u.invoice_doc_no v.invoice_doc_no;
  invoice_date = unless_empty_text u.invoice_date v.invoice_date;
  vat_exempt_amount = unless_zero u.vat_exempt_amount v.vat_exempt_amount;
  vat_inclusive_subtotal = unless_zero u.vat_inclusive_subtotal v.vat_inclusive_subtotal;
  discount_amount = unless_zero u.discount_amount v.discount_amount;
  total_before_vat = u.total_before_vat;
  vat_amount = u.vat_amount;
  total_amount = u.total_amount;
  vat_math_ok = u.vat_math_ok;
  status = unless_empty u.status v.status;
  invoice_year = unless_none u.invoice_year v.invoice_year;
  invoice_month = unless_none u.invoice_month v.invoice_month;
  invoice_day = unless_none u.invoice_day v.invoice_day;
  duplicate_of = unless_empty u.duplicate_of v.duplicate_of;
  invalid_reason = unless_empty u.invalid_reason v.invalid_reason;
  updated_at = now;
}

-- SET … of FullUpdateInvoice
overwrite : ℕ → InvoiceUpdate → Invoice → Invoice
overwrite now u v = record v {
  doc_type = u.doc_type;
  vat_inclusive = u.vat_inclusive;
  vat_rate = u.vat_rate;
  vendor_name = u.vendor_name;
  vendor_tax_id = u.vendor_tax_id;
  vendor_address = u.vendor_address;
  vendor_branch_code = u.vendor_branch_code;
  buyer_name = u.buyer_name;
  buyer_tax_id = u.buyer_tax_id;
  buyer_address = u.buyer_address;
  buyer_branch_code = u.buyer_branch_code;
  invoice_doc_no = u.invoice_doc_no;
  invoice_date = u.invoice_date;
  vat_exempt_amount = u.vat_exempt_amount;
  vat_inclusive_subtotal = u.vat_inclusive_subtotal;
  discount_amount = u.discount_amount;
  total_before_vat = u.total_before_vat;
  vat_amount = u.vat_amount;
  total_amount = u.total_amount;
  vat_math_ok = u.vat_math_ok;
  updated_at = now;
}

-- RETURNING: no row is ErrNoRows.
store_invoice : Option (Invoice × List Invoice) → Tables → Result (Invoice × Tables)
store_invoice none t = err not_found
store_invoice (some (v, vs)) t =
    if admits t v then ok (shown v, record t { invoices = vs }) else err query_failed

-- Exec: no row is no error.
exec_invoice : Option (Invoice × List Invoice) → Tables → Result (Unit {0} × Tables)
exec_invoice none t = ok (tt, t)
exec_invoice (some (v, vs)) t =
    if admits t v then ok (tt, record t { invoices = vs }) else err query_failed

-- UPDATE invoices SET … WHERE id = $1 RETURNING …
update_invoice : String → (ℕ → Invoice → Invoice) → Db Invoice
update_invoice id f =
    statement (λ now t. store_invoice (update_row id (λ v. true) (f now) t.invoices) t)

exec_update : String → (ℕ → Invoice → Invoice) → Db (Unit {0})
exec_update id f =
    statement (λ now t. exec_invoice (update_row id (λ v. true) (f now) t.invoices) t)

unfoldable pub update_accounting_period : (id : String) (year month : ℕ) → Db Invoice
unfolding store_invoice update_invoice
update_accounting_period id year month =
    if ltb year 2000 || ltb 2200 year || ltb month 1 || ltb 12 month
    then raise invalid_input
    else update_invoice id
        λ now v. record v { accounting_year = year; accounting_month = month; updated_at = now }

unfoldable pub full_update_invoice : (id : String) → InvoiceUpdate → Db Invoice
unfolding store_invoice update_invoice overwrite
full_update_invoice id u = update_invoice id (λ now v. overwrite now u v)

unfoldable pub update_invoice_amounts :
    (id : String) (total_before_vat vat_amount total_amount : Numeric) (vat_math_ok : Bool)
    → Db (Unit {0})
unfolding exec_invoice exec_update
update_invoice_amounts id total_before_vat vat_amount total_amount vat_math_ok =
    exec_update id λ now v. record v {
      total_before_vat = total_before_vat;
      vat_amount = vat_amount;
      total_amount = total_amount;
      vat_math_ok = vat_math_ok;
      updated_at = now;
    }

unfoldable pub update_invoice_status : (id status : String) → Db Invoice
unfolding store_invoice update_invoice
update_invoice_status id status =
    update_invoice id (λ now v. record v { status = status; updated_at = now })

-- `$2::uuid`: an empty user id is no UUID, and refused.
unfoldable pub verify_invoice : (id user_id : String) → Db Invoice
unfolding store_invoice update_invoice
verify_invoice id user_id =
    if user_id =ₛ ""
    then statement (λ now t. err query_failed)
    else update_invoice id λ now v. record v {
      status = "verified";
      verified_by = user_id;
      verified_at = some now;
      updated_at = now;
    }

unfoldable pub update_invoice_data : (id : String) → InvoiceUpdate → Db (Unit {0})
unfolding exec_invoice exec_update read_into unless_zero unless_none
update_invoice_data id u = exec_update id (λ now v. read_into now u v)
