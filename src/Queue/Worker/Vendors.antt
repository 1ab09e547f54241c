-- ===== src/Queue/Worker/Vendors.antt =====
-- What the worker does to a vendor that was verified.
use tax_ocr.Prelude.{String, ◌≡◌, refl, true, Option, some}
use tax_ocr.Float.{Float64}
use tax_ocr.GoStrings.Case.{UnicodeCase}
use tax_ocr.Db.Types.{Vendor}
use tax_ocr.Db.Rows.{find}
use tax_ocr.Db.Monad.{Store}
use tax_ocr.Db.Keys.{vendor_keyed}
use tax_ocr.Db.VendorStore.Laws.{
  SameData, StaysVerified, upsert_vendor_from_ocr-StaysVerified, link_invoice_vendor-keeps,
}
use tax_ocr.Db.InvoiceStore.Delete.Laws.{delete_invoice_items-keeps}
use tax_ocr.Db.InvoiceStore.Update.Laws.{update_invoice_data-keeps}
use tax_ocr.Queue.Job.{ProcessInvoicePayload, Worker}
use tax_ocr.Queue.Lines.Laws.{KeptByLines}
use tax_ocr.Queue.Worker.{handle_process_invoice}
use tax_ocr.Queue.Worker.Laws.{KeptByJob, handle_process_invoice-keeps}

module _ (id : String) (v : Vendor) where
  StaysVerified-lines : KeptByLines (StaysVerified id v)
  StaysVerified-lines = record {
    item_free = λ t xs h. h;
    hitl_free = λ t xs h. h;
    task_free = λ t xs h. h;
    rule_free = λ t xs h. h;
    reward_free = λ t xs h. h;
  }

  StaysVerified-job : (invoice_id : String) → KeptByJob invoice_id (StaysVerified id v)
  StaysVerified-job invoice_id = record {
    import_free = λ t ds h. h;
    deletes = delete_invoice_items-keeps (λ t xs hs ts h. h) invoice_id;
    upserts = upsert_vendor_from_ocr-StaysVerified id v;
    links = link_invoice_vendor-keeps (λ t vs h. h) invoice_id;
  }

same_data : (v : Vendor) → v.verified ≡ true → SameData v v
same_data v is = record {
  is_verified = is;
  tax_id = refl;
  name = refl;
  address = refl;
  branch_code = refl;
  branch_name = refl;
  phone = refl;
  verified_by = refl;
}

-- Whatever is read from an invoice, and whichever statements fail, a vendor that was verified is
-- there after the job with the data with which it was verified.
pub handle_process_invoice_verified :
    (f : Float64) (u : UnicodeCase) (w : Worker f) (o : Option ProcessInvoicePayload) (s : Store)
    (id : String) (v : Vendor)
    → find id s.tables.vendors ≡ some v
    → v.verified ≡ true
    → StaysVerified id v (handle_process_invoice f u w o s).1.tables
handle_process_invoice_verified f u w o s id v is verified =
    (handle_process_invoice-keeps (StaysVerified-job id v) (StaysVerified-lines id v)
        (update_invoice_data-keeps (λ t vs h. h)) f u w o).at
      s (v, is, same_data v verified)
