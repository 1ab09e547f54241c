-- ===== src/Api/InvoiceHandlers.antt =====
-- backend/internal/api/invoice_handler.go. The conversions between float64 and NUMERIC and the queue are
-- parameters, and the year and the month of a time, `clock`; a body that readJSON refuses is `none`.
pub mod Laws
use tax_ocr.Prelude.{
  ℕ, Bool, true, false, not, if◌then◌else◌, String, ◌=ₛ◌, Text, runes, Option, none, some, List, [],
}
use tax_ocr.Float.{Float64}
use tax_ocr.GoStrings.Case.{UnicodeCase}
use tax_ocr.Db.Types.{Invoice, InvoiceItem, Numeric}
use tax_ocr.Db.Monad.{DbError, not_found, Result, ok, err, Db, pure, try, ◌>>=◌, ◌>>◌}
use tax_ocr.Db.InvoiceStore.{list_invoices, get_invoice, create_invoice}
use tax_ocr.Db.InvoiceStore.Update.{
  InvoiceUpdate, no_update, zero_amount, update_accounting_period, full_update_invoice,
  update_invoice_amounts, verify_invoice, update_invoice_data,
}
use tax_ocr.Db.InvoiceStore.Items.{list_invoice_items, update_invoice_item}
use tax_ocr.Db.InvoiceStore.Delete.{delete_invoice}
use tax_ocr.Queue.Job.{ProcessInvoicePayload, ignored}
use tax_ocr.Api.ReviewerHandlers.{Response, answering, bad_request, always_not_found}
use tax_ocr.Api.Auth.{Claims, replied, replied_with}
use tax_ocr.Api.Uploads.{detect_content_type, uploaded_invoice}

unfoldable pub not_found_or_server_error : DbError → ℕ
not_found_or_server_error not_found = 404
not_found_or_server_error e = 500

always_failed : DbError → ℕ
always_failed e = 500

always_bad : DbError → ℕ
always_bad e = 400

-- Numbers of the query string that strconv.Atoi refuses are 0.
unfoldable pub handle_list_invoices :
    (tenant_id status doc_type : String) (accounting_year accounting_month : ℕ)
    → Db (Response (List Invoice))
unfolding always_failed
handle_list_invoices tenant_id status doc_type accounting_year accounting_month =
    answering 200 always_failed
      (list_invoices tenant_id status doc_type accounting_year accounting_month)

-- The year and the month; a negative one is refused as 0 is.
unfoldable pub handle_update_accounting_period :
    (id : String) → Option (ℕ × ℕ) → Db (Response Invoice)
unfolding always_bad
handle_update_accounting_period id none = bad_request
handle_update_accounting_period id (some (year, month)) =
    answering 200 always_bad (update_accounting_period id year month)

unfoldable pub handle_get_invoice : (id : String) → Db (Response Invoice)
handle_get_invoice id = answering 200 always_not_found (get_invoice id)

unfoldable pub handle_get_invoice_items : (id : String) → Db (Response (List InvoiceItem))
handle_get_invoice_items id = answering 200 always_not_found (list_invoice_items id)

unfoldable pub handle_delete_invoice : (id : String) → Db (Response (Unit {0}))
handle_delete_invoice id = answering 204 not_found_or_server_error (delete_invoice id)

-- The content type and the bytes of the file.
pub record Image : Type 0 where
  pub content_type : String
  pub content : Text

module _ (u : UnicodeCase) (download : String → Option Text) where
  downloaded : Invoice → Option Text → Db (Response Image)
  downloaded inv none = replied 500
  downloaded inv (some content) =
      replied_with 200
        (record { content_type = detect_content_type u (runes inv.file_path); content = content })

  image_of : Result Invoice → Db (Response Image)
  image_of (err e) = replied 404
  image_of (ok inv) =
      if inv.file_path =ₛ "" then replied 404 else downloaded inv (download inv.file_path)

  unfoldable pub handle_get_invoice_image : (id : String) → Db (Response Image)
  unfolding downloaded image_of
  handle_get_invoice_image id = do inv ← try (get_invoice id); image_of inv

module _ (u : UnicodeCase) (queue : Option (ProcessInvoicePayload → Db (Unit {0}))) where
  enqueued : Result (Unit {0}) → Db (Response (Unit {0}))
  enqueued (err e) = replied 500
  enqueued (ok _) = replied_with 202 tt

  requeue : Invoice → Option (ProcessInvoicePayload → Db (Unit {0})) → Db (Response (Unit {0}))
  requeue inv none = replied 503
  requeue inv (some enqueue) = do
    ignored (update_invoice_data inv.id (record no_update { status = "pending" }))
    r ← try (
        enqueue (record {
          invoice_id = inv.id;
          document_import_id = inv.document_import_id;
          tenant_id = inv.tenant_id;
          branch_id = inv.branch_id;
          file_path = inv.file_path;
          content_type = detect_content_type u (runes inv.file_path);
        }))
    enqueued r

  reprocess : Result Invoice → Db (Response (Unit {0}))
  reprocess (err e) = replied 404
  reprocess (ok inv) = requeue inv queue

  -- The id of the invoice that is found is the one that was asked for.
  unfoldable pub handle_reprocess_invoice : (id : String) → Db (Response (Unit {0}))
  unfolding enqueued requeue reprocess
  handle_reprocess_invoice id = do inv ← try (get_invoice id); reprocess inv

confirmed : (id : String) → Claims → Result (Unit {0}) → Db (Response Invoice)
confirmed id claims (err e) = replied 500
confirmed id claims (ok _) =
    answering 200 not_found_or_server_error (verify_invoice id claims.user_id)

module _ (f : Float64) where
  open f use {F, lit, sub, mul, div, abs, lt, le, eq}

  pub record UpdateInvoiceBody : Type 0 where
    pub doc_type : String
    pub vat_inclusive : Bool
    pub vat_rate : F
    pub vendor_name : Text
    pub vendor_tax_id : Text
    pub vendor_address : Text
    pub vendor_branch_code : Text
    pub buyer_name : Text
    pub buyer_tax_id : Text
    pub buyer_address : Text
    pub buyer_branch_code : Text
    pub invoice_doc_no : Text
    pub invoice_date : Text
    pub vat_exempt_amount : F
    pub vat_inclusive_subtotal : F
    pub discount_amount : F
    pub total_before_vat : F
    pub vat_amount : F
    pub total_amount : F

  -- math.Abs(x-y) < 0.02
  near : F → F → Bool
  near x y = lt (abs (sub x y)) (lit 2 2)

  -- A body that cannot be read has the amounts 0.
  pub record Corrections : Type 0 where
    pub total_before_vat : F
    pub vat_amount : F
    pub total_amount : F

  unless_nought : F → F → F
  unless_nought new old = if eq new (lit 0 0) then old else new

  unfoldable pub corrected : Corrections → Corrections → Corrections
  unfolding unless_nought
  corrected new cur = record {
    total_before_vat = unless_nought new.total_before_vat cur.total_before_vat;
    vat_amount = unless_nought new.vat_amount cur.vat_amount;
    total_amount = unless_nought new.total_amount cur.total_amount;
  }

  pub record InvoiceItemBody : Type 0 where
    pub quantity : F
    pub unit_price : F
    pub discount : F
    pub total_price : F

  pub record InvoiceBody : Type 0 where
    pub tenant_id : String
    pub branch_id : String
    pub document_import_id : String
    pub file_path : String
    pub file_hash : String
    pub vendor_tax_id : Text
    pub total_before_vat : F
    pub vat_amount : F
    pub total_amount : F

  module _ (to_float : Numeric → F) (to_numeric : ℕ → F → Numeric) where
    update_of : UpdateInvoiceBody → (vat_rate : F) → InvoiceUpdate
    update_of req vat_rate = record no_update {
      doc_type = req.doc_type;
      vat_inclusive = req.vat_inclusive;
      vat_rate = to_numeric 2 vat_rate;
      vendor_name = req.vendor_name;
      vendor_tax_id = req.vendor_tax_id;
      vendor_address = req.vendor_address;
      vendor_branch_code = req.vendor_branch_code;
      buyer_name = req.buyer_name;
      buyer_tax_id = req.buyer_tax_id;
      buyer_address = req.buyer_address;
      buyer_branch_code = req.buyer_branch_code;
      invoice_doc_no = req.invoice_doc_no;
      invoice_date = req.invoice_date;
      vat_exempt_amount = to_numeric 2 req.vat_exempt_amount;
      vat_inclusive_subtotal = to_numeric 2 req.vat_inclusive_subtotal;
      discount_amount = to_numeric 2 req.discount_amount;
      total_before_vat = to_numeric 2 req.total_before_vat;
      vat_amount = to_numeric 2 req.vat_amount;
      total_amount = to_numeric 2 req.total_amount;
      vat_math_ok = near (div (mul req.total_before_vat vat_rate) (lit 100 0)) req.vat_amount;
    }

    unfoldable pub handle_update_invoice :
        (id : String) → Option UpdateInvoiceBody → Db (Response Invoice)
    unfolding near update_of
    handle_update_invoice id none = bad_request
    handle_update_invoice id (some req) = answering 200 not_found_or_server_error (
        full_update_invoice id
          (update_of req (if le req.vat_rate (lit 0 0) then lit 70 1 else req.vat_rate)))

    -- An error of GetInvoice is dropped, and the amounts are 0 then.
    amounts_of : Result Invoice → Corrections
    amounts_of (err e) = record {
      total_before_vat = lit 0 0;
      vat_amount = lit 0 0;
      total_amount = lit 0 0;
    }
    amounts_of (ok inv) = record {
      total_before_vat = to_float inv.total_before_vat;
      vat_amount = to_float inv.vat_amount;
      total_amount = to_float inv.total_amount;
    }

    confirm_amounts : (id : String) → Claims → Corrections → Db (Response Invoice)
    confirm_amounts id claims a = do
      r ← try (
          update_invoice_amounts id (to_numeric 2 a.total_before_vat) (to_numeric 2 a.vat_amount)
            (to_numeric 2 a.total_amount) (near (mul a.total_before_vat (lit 7 2)) a.vat_amount))
      confirmed id claims r

    unfoldable pub handle_verify_invoice :
        (id : String) → Option Claims → Corrections → Db (Response Invoice)
    unfolding near amounts_of corrected confirmed confirm_amounts
    handle_verify_invoice id none corrections = replied 401
    handle_verify_invoice id (some claims) corrections = do
      cur ← try (get_invoice id)
      confirm_amounts id claims (corrected corrections (amounts_of cur))

    unfoldable pub handle_update_invoice_item :
        (id : String) → Option InvoiceItemBody → Db (Response (Unit {0}))
    unfolding always_failed
    handle_update_invoice_item id none = bad_request
    handle_update_invoice_item id (some req) = answering 204 always_failed (
        update_invoice_item id (to_numeric 4 req.quantity) (to_numeric 2 req.unit_price)
          (to_numeric 2 req.discount) (to_numeric 2 req.total_price))

    invoice_of : InvoiceBody → Invoice
    invoice_of req =
        record (uploaded_invoice req.tenant_id req.branch_id req.document_import_id req.file_path
          req.file_hash) {
            vendor_tax_id = req.vendor_tax_id;
            total_before_vat = to_numeric 2 req.total_before_vat;
            vat_amount = to_numeric 2 req.vat_amount;
            total_amount = to_numeric 2 req.total_amount;
          }

    unfoldable pub handle_create_invoice :
        (clock : ℕ → ℕ × ℕ) → Option InvoiceBody → Db (Response Invoice)
    unfolding invoice_of always_bad
    handle_create_invoice clock none = bad_request
    handle_create_invoice clock (some req) =
        answering 201 always_bad (create_invoice clock (invoice_of req))
