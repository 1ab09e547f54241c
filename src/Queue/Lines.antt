-- ===== src/Queue/Lines.antt =====
-- backend/internal/queue/worker.go: the loop of `handleProcessInvoice` over the lines of an invoice.
pub mod Laws
use tax_ocr.Prelude.{
  ℕ, ◌+◌, ltb, Bool, true, false, not, ◌||◌, ◌&&◌, if◌then◌else◌, String, ◌=ₛ◌, Text, is_empty,
  Option, none, some, List, [], ◌∷◌, length,
}
use tax_ocr.Float.{Float64}
use tax_ocr.GoStrings.Case.{UnicodeCase}
use tax_ocr.Db.Types.{
  Tenant, Branch, User, DocumentImport, Invoice, InvoiceItem, Vendor, HitlQueueItem, Numeric,
}
use tax_ocr.Db.Monad.{
  DbError, Result, ok, err, done_notice, review_notice, Db, pure, try, ◌>>=◌, ◌>>◌, time_now, push,
}
use tax_ocr.Db.TenantStore.{get_tenant, get_branch}
use tax_ocr.Db.UserStore.{get_user_by_id}
use tax_ocr.Db.ImportStore.{get_document_import, update_document_import_status}
use tax_ocr.Db.VendorStore.{upsert_vendor_from_ocr, link_invoice_vendor}
use tax_ocr.Db.HitlStore.{create_hitl_item}
use tax_ocr.Db.InvoiceStore.{get_invoice, find_duplicate_invoice}
use tax_ocr.Db.InvoiceStore.Update.{InvoiceUpdate, no_update, update_invoice_data}
use tax_ocr.Db.InvoiceStore.Items.{create_invoice_item}
use tax_ocr.Db.InvoiceStore.Delete.{delete_invoice_items_by_invoice_id}
use tax_ocr.Reviewer.Service.{assign_for_hitl}
use tax_ocr.Ocr.Types.{LineItem, InvoiceData}
use tax_ocr.Ocr.Service.{Clients, Engines, ExtractionResult, extract}
use tax_ocr.Classify.Keywords.{ClassificationResult}
use tax_ocr.Classify.Service.{Reply}
use tax_ocr.Classify.Learning.{classify_and_learn}
use tax_ocr.Queue.Buyer.{Verdict, no_complaint, validate_buyer}
use tax_ocr.Queue.Dates.{Date, parse_invoice_date}
use tax_ocr.Queue.Late.{is_late}
use tax_ocr.Queue.Job.{
  ProcessInvoicePayload, HandlerError, unmarshal_error, download_error, ocr_error, Handled, Worker,
  ignored,
}

module _ (f : Float64) (u : UnicodeCase) (w : Worker f) (p : ProcessInvoicePayload) where
  assigned : Result HitlQueueItem → Db (Unit {0})
  assigned (err e) = pure tt
  assigned (ok hitl) = if w.has_reviewers then assign_for_hitl w.expire_minutes hitl else pure tt

  -- The queue for review, when the class is uncertain or the two readings differ.
  route : (matched : Bool) (asset_type : String) → Result InvoiceItem → Db (Unit {0})
  route matched asset_type (err e) = pure tt
  route matched asset_type (ok saved) =
      if not (asset_type =ₛ "pending" || not matched) then pure tt else do
        hitl ← try (
            create_hitl_item p.tenant_id saved.id
              (if matched then "classification_needed" else "ocr_mismatch"))
        assigned hitl

  item_row : LineItem f.F → ClassificationResult f → InvoiceItem
  item_row x class = record {
    id = "";
    tenant_id = p.tenant_id;
    branch_id = p.branch_id;
    invoice_id = p.invoice_id;
    product_code = x.product_code;
    description = x.description;
    unit = x.unit;
    quantity = w.to_numeric 4 x.quantity;
    unit_price = w.to_numeric 2 x.unit_price;
    discount = w.to_numeric 2 x.discount;
    total_price = w.to_numeric 2 x.total_price;
    asset_type = class.asset_type;
    classified_by = class.classified_by;
    created_at = 0;
    updated_at = 0;
  }

  -- One pass of the loop over the line items; ClassifyWithDB returns no error.
  save_item : (matched : Bool) → LineItem f.F → Db (Unit {0})
  save_item matched x = do
    class ←
        classify_and_learn f u w.to_float w.to_numeric w.has_key w.ask
          (record { tenant_id = p.tenant_id; description = x.description })
    saved ← try (create_invoice_item (item_row x class))
    route matched class.asset_type saved

  unfoldable pub save_items : (matched : Bool) → List (LineItem f.F) → Db (Unit {0})
  unfolding assigned route item_row save_item ignored
  save_items matched [] = pure tt
  save_items matched (x ∷ xs) = do save_item matched x; save_items matched xs
