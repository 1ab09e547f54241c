-- ===== src/Queue/Worker.antt =====
-- backend/internal/queue/worker.go: `handleProcessInvoice`. `notifyLineUser`, which it starts last
-- of all, is run after it here.
pub mod Laws
pub mod Steps
pub mod Vendors
pub mod Refused
pub mod Duplicates
pub mod Others
use tax_ocr.Prelude.{
  ℕ, ◌+◌, ltb, Bool, true, false, not, ◌||◌, ◌&&◌, if◌then◌else◌, String, ◌=ₛ◌, Text, is_empty,
  Option, none, some, List, [], ◌∷◌, length,
}
use tax_ocr.Float.{Float64}
use tax_ocr.GoStrings.Case.{UnicodeCase}
use tax_ocr.Db.Types.{
  Tenant, Branch, User, DocumentImport, Invoice, InvoiceItem, Vendor, HitlQueueItem, Numeric,
}
use tax_ocr.Db.Monad.{
  DbError, Result, ok, err, done_notice, review_notice, Db, pure, try, ◌>>=◌, ◌>>◌, time_now, push,
}
use tax_ocr.Db.TenantStore.{get_tenant, get_branch}
use tax_ocr.Db.UserStore.{get_user_by_id}
use tax_ocr.Db.ImportStore.{get_document_import, update_document_import_status}
use tax_ocr.Db.VendorStore.{upsert_vendor_from_ocr, link_invoice_vendor}
use tax_ocr.Db.HitlStore.{create_hitl_item}
use tax_ocr.Db.InvoiceStore.{get_invoice, find_duplicate_invoice}
use tax_ocr.Db.InvoiceStore.Update.{InvoiceUpdate, no_update, update_invoice_data}
use tax_ocr.Db.InvoiceStore.Items.{create_invoice_item}
use tax_ocr.Db.InvoiceStore.Delete.{delete_invoice_items_by_invoice_id}
use tax_ocr.Reviewer.Service.{assign_for_hitl}
use tax_ocr.Ocr.Types.{LineItem, InvoiceData}
use tax_ocr.Ocr.Service.{Clients, Engines, ExtractionResult, extract}
use tax_ocr.Classify.Keywords.{ClassificationResult}
use tax_ocr.Classify.Service.{Reply}
use tax_ocr.Classify.Learning.{classify_and_learn}
use tax_ocr.Queue.Buyer.{Verdict, no_complaint, validate_buyer}
use tax_ocr.Queue.Dates.{Date, parse_invoice_date}
use tax_ocr.Queue.Late.{is_late}
use tax_ocr.Queue.Job.{
  ProcessInvoicePayload, HandlerError, unmarshal_error, download_error, ocr_error, Handled, Worker,
  ignored,
}
use tax_ocr.Queue.Lines.{save_items}
use tax_ocr.Queue.Notify.{notify_line_user}

module _ (f : Float64) (u : UnicodeCase) (w : Worker f) (p : ProcessInvoicePayload) where
  -- The status that the checks give, and the reason.
  pub buyer_verdict : InvoiceData f.F → Result Tenant → Result Branch → Verdict
  buyer_verdict d (ok tenant) (ok branch) =
      validate_buyer f u d.doc_type d.buyer_tax_id d.buyer_branch_code d.buyer_name tenant branch
  buyer_verdict d (ok tenant) (err e) = no_complaint
  buyer_verdict d (err e) branch = no_complaint

  unfoldable pub assess : (matched : Bool) (now : ℕ) → Date → Verdict → Verdict
  assess matched now date verdict = if verdict.0 =ₛ "invalid" then verdict else (
    if matched then "verified" else "conflict",
    if ltb 0 date.year && is_late now date then "late_invoice_vat_unclaimed" else "",
  )

  -- duplicateOf, and whether an invoice was found
  abbrev pub Duplicate : Type 0
  Duplicate = Option String

  pub found : Result Invoice → Duplicate
  found (ok existing) = some existing.id
  found (err e) = none

  pub look_for_duplicate : InvoiceData f.F → Db Duplicate
  look_for_duplicate d =
      if is_empty d.vendor_tax_id || is_empty d.invoice_doc_no then pure none else do
        existing ←
            try (find_duplicate_invoice p.tenant_id d.vendor_tax_id d.invoice_doc_no p.invoice_id)
        pure (found existing)

  link_vendor : Result Vendor → Db (Unit {0})
  link_vendor (err e) = pure tt
  link_vendor (ok vendor) = ignored (link_invoice_vendor p.invoice_id vendor.id)

  register_vendor : InvoiceData f.F → Db (Unit {0})
  register_vendor d = if is_empty d.vendor_tax_id then pure tt else do
    vendor ←
        try (
          upsert_vendor_from_ocr d.vendor_tax_id d.vendor_name d.vendor_address
            d.vendor_branch_code)
    link_vendor vendor

  duplicate_of : Duplicate → String
  duplicate_of none = ""
  duplicate_of (some id) = id

  status_of : Verdict → Duplicate → String
  status_of verdict none = verdict.0
  status_of verdict (some id) = "conflict"

  unfoldable pub reading :
      InvoiceData f.F → (vat_math_ok : Bool) → Date → Verdict → Duplicate → InvoiceUpdate
  unfolding duplicate_of status_of
  reading d vat_math_ok date verdict duplicate = record {
    doc_type = d.doc_type;
    vat_inclusive = d.vat_inclusive;
    vat_rate = w.to_numeric 2 d.vat_rate;
    vendor_name = d.vendor_name;
    vendor_tax_id = d.vendor_tax_id;
    vendor_address = d.vendor_address;
    vendor_branch_code = d.vendor_branch_code;
    buyer_name = d.buyer_name;
    buyer_tax_id = d.buyer_tax_id;
    buyer_address = d.buyer_address;
    buyer_branch_code = d.buyer_branch_code;
    invoice_doc_no = d.invoice_doc_no;
    invoice_date = d.invoice_date;
    vat_exempt_amount = w.to_numeric 2 d.vat_exempt_amount;
    vat_inclusive_subtotal = w.to_numeric 2 d.vat_inclusive_subtotal;
    discount_amount = w.to_numeric 2 d.discount_amount;
    total_before_vat = w.to_numeric 2 d.total_before_vat;
    vat_amount = w.to_numeric 2 d.vat_amount;
    total_amount = w.to_numeric 2 d.total_amount;
    vat_math_ok = vat_math_ok;
    status = status_of verdict duplicate;
    invoice_year = date.year;
    invoice_month = date.month;
    invoice_day = date.day;
    accounting_year = 0;
    accounting_month = 0;
    duplicate_of = duplicate_of duplicate;
    invalid_reason = verdict.1;
  }

  mark_done : Db (Unit {0})
  mark_done =
      if p.document_import_id =ₛ ""
      then pure tt
      else ignored (update_document_import_status p.document_import_id "done")

  -- What comes after the old items are deleted.
  pub finish : (matched : Bool) → InvoiceData f.F → Verdict → Duplicate → Db (Unit {0})
  finish matched d verdict (some id) = do mark_done; notify_line_user f w p "conflict" 0
  finish matched d verdict none = do
    save_items f u w p matched d.items
    mark_done
    notify_line_user f w p verdict.0 (length d.items)

  -- What comes after the search for a duplicate.
  pub conclude : ExtractionResult f → Verdict → Duplicate → Db (Unit {0})
  conclude r verdict duplicate = do
    register_vendor r.invoice_data
    ignored (
        update_invoice_data p.invoice_id (
          reading r.invoice_data r.vat_math_ok (parse_invoice_date r.invoice_data.invoice_date)
            verdict duplicate))
    ignored (delete_invoice_items_by_invoice_id p.invoice_id)
    finish r.matched r.invoice_data verdict duplicate

  settle : ExtractionResult f → Verdict → Db (Unit {0})
  settle r verdict = do duplicate ← look_for_duplicate r.invoice_data; conclude r verdict duplicate

  process : ExtractionResult f → Db (Unit {0})
  process r = do
    tenant ← try (get_tenant p.tenant_id)
    branch ← try (get_branch p.branch_id)
    now ← time_now
    settle r (
        assess r.matched now (parse_invoice_date r.invoice_data.invoice_date)
          (buyer_verdict r.invoice_data tenant branch))

  give_up : HandlerError → Db Handled
  give_up e =
      ignored (update_invoice_data p.invoice_id (record no_update { status = "conflict" }))
      >> pure (some e)

  with_reading : Option (ExtractionResult f) → Db Handled
  with_reading none = give_up ocr_error
  with_reading (some r) = process r >> pure none

  with_file : Option Text → Db Handled
  with_file none = give_up download_error
  with_file (some bytes) =
      with_reading (
        extract f w.engines w.clients
          (record { file_bytes = bytes; content_type = p.content_type }))

module _ (f : Float64) (u : UnicodeCase) (w : Worker f) where
  -- `none` is a payload that json.Unmarshal refuses.
  unfoldable pub handle_process_invoice : Option ProcessInvoicePayload → Db Handled
  unfolding buyer_verdict found look_for_duplicate link_vendor register_vendor mark_done finish
      conclude settle process give_up with_reading with_file
  handle_process_invoice none = pure (some unmarshal_error)
  handle_process_invoice (some p) = with_file f u w p (w.download p.file_path)
