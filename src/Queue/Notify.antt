-- ===== src/Queue/Notify.antt =====
-- backend/internal/queue/worker.go: `notifyLineUser`, which changes no table.
pub mod Laws
use tax_ocr.Prelude.{
  ℕ, ◌+◌, ltb, Bool, true, false, not, ◌||◌, ◌&&◌, if◌then◌else◌, String, ◌=ₛ◌, Text, is_empty,
  Option, none, some, List, [], ◌∷◌, length,
}
use tax_ocr.Float.{Float64}
use tax_ocr.GoStrings.Case.{UnicodeCase}
use tax_ocr.Db.Types.{
  Tenant, Branch, User, DocumentImport, Invoice, InvoiceItem, Vendor, HitlQueueItem, Numeric,
}
use tax_ocr.Db.Monad.{
  DbError, Result, ok, err, done_notice, review_notice, Db, pure, try, ◌>>=◌, ◌>>◌, time_now, push,
}
use tax_ocr.Db.TenantStore.{get_tenant, get_branch}
use tax_ocr.Db.UserStore.{get_user_by_id}
use tax_ocr.Db.ImportStore.{get_document_import, update_document_import_status}
use tax_ocr.Db.VendorStore.{upsert_vendor_from_ocr, link_invoice_vendor}
use tax_ocr.Db.HitlStore.{create_hitl_item}
use tax_ocr.Db.InvoiceStore.{get_invoice, find_duplicate_invoice}
use tax_ocr.Db.InvoiceStore.Update.{InvoiceUpdate, no_update, update_invoice_data}
use tax_ocr.Db.InvoiceStore.Items.{create_invoice_item}
use tax_ocr.Db.InvoiceStore.Delete.{delete_invoice_items_by_invoice_id}
use tax_ocr.Reviewer.Service.{assign_for_hitl}
use tax_ocr.Ocr.Types.{LineItem, InvoiceData}
use tax_ocr.Ocr.Service.{Clients, Engines, ExtractionResult, extract}
use tax_ocr.Classify.Keywords.{ClassificationResult}
use tax_ocr.Classify.Service.{Reply}
use tax_ocr.Classify.Learning.{classify_and_learn}
use tax_ocr.Queue.Buyer.{Verdict, no_complaint, validate_buyer}
use tax_ocr.Queue.Dates.{Date, parse_invoice_date}
use tax_ocr.Queue.Late.{is_late}
use tax_ocr.Queue.Job.{
  ProcessInvoicePayload, HandlerError, unmarshal_error, download_error, ocr_error, Handled, Worker,
  ignored,
}

module _ (f : Float64) (w : Worker f) (p : ProcessInvoicePayload) where
  tell : (status : String) (item_count : ℕ) (line_user_id : String) → Result Invoice → Db (Unit {0})
  tell status item_count line_user_id (err e) = pure tt
  tell status item_count line_user_id (ok v) =
      if status =ₛ "verified"
      then push (done_notice line_user_id v.invoice_no v.total_amount item_count)
      else push (review_notice line_user_id v.invoice_no)

  tell_user : (status : String) (item_count : ℕ) → Result User → Db (Unit {0})
  tell_user status item_count (err e) = pure tt
  tell_user status item_count (ok user) =
      if user.line_user_id =ₛ ""
      then pure tt
      else do v ← try (get_invoice p.invoice_id); tell status item_count user.line_user_id v

  tell_sender : (status : String) (item_count : ℕ) → Result DocumentImport → Db (Unit {0})
  tell_sender status item_count (err e) = pure tt
  tell_sender status item_count (ok doc) =
      if doc.user_id =ₛ ""
      then pure tt
      else do user ← try (get_user_by_id doc.user_id); tell_user status item_count user

  unfoldable pub notify_line_user : (status : String) (item_count : ℕ) → Db (Unit {0})
  unfolding tell tell_user tell_sender
  notify_line_user status item_count =
      if not w.has_line || p.document_import_id =ₛ "" then pure tt else do
        doc ← try (get_document_import p.document_import_id)
        tell_sender status item_count doc
