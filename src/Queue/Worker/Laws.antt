-- ===== src/Queue/Worker/Laws.antt =====
-- What the handling of an invoice keeps: a property of the tables that every statement keeps which
-- the handler makes is kept by the handler, whichever statements fail.
use tax_ocr.Prelude.{
  String, ◌=ₛ◌, subst, Bool, ◌||◌, Option, none, some, Text, is_empty, List, Bool-cases, inl, inr,
  length,
}
use tax_ocr.Float.{Float64}
use tax_ocr.GoStrings.Case.{UnicodeCase}
use tax_ocr.Db.Types.{DocumentImport, Vendor}
use tax_ocr.Db.Monad.{Result, ok, err, Tables, Db}
use tax_ocr.Db.Monad.Keeps.{
  Keeps, Keeps-pure, Keeps-try, Keeps-bind, Keeps-time_now, Keeps-statement,
}
use tax_ocr.Db.ReviewerStore.Settled.{row_or_not_found_same}
use tax_ocr.Db.TenantStore.{get_tenant, get_branch}
use tax_ocr.Db.VendorStore.{upsert_vendor_from_ocr, link_invoice_vendor}
use tax_ocr.Db.ImportStore.Laws.{update_document_import_status-keeps}
use tax_ocr.Db.InvoiceStore.Laws.{find_duplicate_invoice-keeps}
use tax_ocr.Db.InvoiceStore.Update.{InvoiceUpdate, update_invoice_data}
use tax_ocr.Db.InvoiceStore.Delete.{delete_invoice_items_by_invoice_id}
use tax_ocr.Ocr.Types.{InvoiceData}
use tax_ocr.Ocr.Service.{ExtractionResult}
use tax_ocr.Queue.Buyer.{Verdict}
use tax_ocr.Queue.Dates.{parse_invoice_date}
use tax_ocr.Queue.Job.{
  ProcessInvoicePayload, Worker, HandlerError, ocr_error, download_error, ignored,
}
use tax_ocr.Queue.Lines.Laws.{KeptByLines, save_items-keeps}
use tax_ocr.Queue.Notify.Laws.{notify_line_user-keeps}
use tax_ocr.Queue.Worker.{
  Duplicate, look_for_duplicate, link_vendor, register_vendor, mark_done, finish, conclude, settle,
  process, reading, give_up, with_reading, with_file, handle_process_invoice,
}

pub Keeps-ignored : {P : Tables → Type 0} {A : Type 0} {m : Db A} → Keeps P m → Keeps P (ignored m)
unfolding ignored
Keeps-ignored k = Keeps-bind (Keeps-try k) (λ r. Keeps-pure tt)

-- The statements of a job on an invoice, but for those of the loop over the lines and the update of
-- the invoice's data.
pub record KeptByJob (invoice_id : String) (P : Tables → Type 0) : Type 0 where
  pub import_free :
      (t : Tables) (ds : List DocumentImport) → P t → P (record t { document_imports = ds })
  pub deletes : Keeps P (delete_invoice_items_by_invoice_id invoice_id)
  pub upserts :
      (tax_id name address branch_code : Text)
      → Keeps P (upsert_vendor_from_ocr tax_id name address branch_code)
  pub links : (vendor_id : String) → Keeps P (link_invoice_vendor invoice_id vendor_id)

module _ {P : Tables → Type 0} where
  get_tenant-keeps : (id : String) → Keeps P (get_tenant id)
  unfolding get_tenant
  get_tenant-keeps id =
      Keeps-statement _ λ now t a t' h e. subst P (row_or_not_found_same _ t t' a e) h

  get_branch-keeps : (id : String) → Keeps P (get_branch id)
  unfolding get_branch
  get_branch-keeps id =
      Keeps-statement _ λ now t a t' h e. subst P (row_or_not_found_same _ t t' a e) h

module _ {P : Tables → Type 0} (f : Float64) (u : UnicodeCase) (w : Worker f)
    (p : ProcessInvoicePayload) (k : KeptByJob p.invoice_id P) where
  mark_done-keeps : Keeps P (mark_done f u w p)
  unfolding mark_done
  mark_done-keeps = elim (Bool-cases (p.document_import_id =ₛ "")) [
    | inl e ↦ rw e (Keeps-pure tt)
    | inr e ↦ rw e (
        Keeps-ignored
          (update_document_import_status-keeps k.import_free p.document_import_id "done"))
  ]

  pub look_for_duplicate-keeps : (d : InvoiceData f.F) → Keeps P (look_for_duplicate f u w p d)
  unfolding look_for_duplicate
  look_for_duplicate-keeps d =
      elim (Bool-cases (is_empty d.vendor_tax_id || is_empty d.invoice_doc_no)) [
        | inl e ↦ rw e (Keeps-pure none)
        | inr e ↦ rw e (
            Keeps-bind
              (Keeps-try (
                find_duplicate_invoice-keeps p.tenant_id d.vendor_tax_id d.invoice_doc_no
                  p.invoice_id))
              λ existing. Keeps-pure _)
      ]

  link_vendor-keeps : (r : Result Vendor) → Keeps P (link_vendor f u w p r)
  unfolding link_vendor
  link_vendor-keeps (err e) = Keeps-pure tt
  link_vendor-keeps (ok v) = Keeps-ignored (k.links v.id)

  register_vendor-keeps : (d : InvoiceData f.F) → Keeps P (register_vendor f u w p d)
  unfolding register_vendor
  register_vendor-keeps d = elim (Bool-cases (is_empty d.vendor_tax_id)) [
    | inl e ↦ rw e (Keeps-pure tt)
    | inr e ↦ rw e (
        Keeps-bind
          (Keeps-try
            (k.upserts d.vendor_tax_id d.vendor_name d.vendor_address d.vendor_branch_code))
          λ vendor. link_vendor-keeps vendor)
  ]

  -- What the reading makes of the invoice's row.
  abbrev pub Writes : ExtractionResult f → Verdict → Duplicate f u w p → Type 0
  Writes r verdict o = Keeps P (
      update_invoice_data p.invoice_id (
        reading f u w p r.invoice_data r.vat_math_ok
          (parse_invoice_date r.invoice_data.invoice_date) verdict o))

  conclude_with :
      (r : ExtractionResult f) (verdict : Verdict) (o : Duplicate f u w p)
      → Writes r verdict o
      → Keeps P (finish f u w p r.matched r.invoice_data verdict o)
      → Keeps P (conclude f u w p r verdict o)
  unfolding conclude
  conclude_with r verdict o writes ends =
      Keeps-bind (register_vendor-keeps r.invoice_data)
        λ x. Keeps-bind (Keeps-ignored writes) λ y. Keeps-bind (Keeps-ignored k.deletes) λ z. ends

  -- For a duplicate the loop over the lines is not run.
  pub conclude_duplicate-keeps :
      (r : ExtractionResult f) (verdict : Verdict) (id : String)
      → Writes r verdict (some id)
      → Keeps P (conclude f u w p r verdict (some id))
  unfolding finish
  conclude_duplicate-keeps r verdict id writes =
      conclude_with r verdict (some id) writes
        (Keeps-bind mark_done-keeps (λ x. notify_line_user-keeps f w p "conflict" 0))

  module _ (lines : KeptByLines P) where
    finish-keeps :
        (matched : Bool) (d : InvoiceData f.F) (verdict : Verdict) (o : Duplicate f u w p)
        → Keeps P (finish f u w p matched d verdict o)
    unfolding finish
    finish-keeps matched d verdict (some id) =
        Keeps-bind mark_done-keeps λ x. notify_line_user-keeps f w p "conflict" 0
    finish-keeps matched d verdict none =
        Keeps-bind (save_items-keeps lines f u w p matched d.items) λ x.
          Keeps-bind mark_done-keeps λ y. notify_line_user-keeps f w p verdict.0 (length d.items)

    pub conclude-keeps :
        (r : ExtractionResult f) (verdict : Verdict) (o : Duplicate f u w p)
        → Writes r verdict o
        → Keeps P (conclude f u w p r verdict o)
    conclude-keeps r verdict o writes =
        conclude_with r verdict o writes (finish-keeps r.matched r.invoice_data verdict o)

    module _ (updates : (v : InvoiceUpdate) → Keeps P (update_invoice_data p.invoice_id v)) where
      process-keeps : (r : ExtractionResult f) → Keeps P (process f u w p r)
      unfolding process settle
      process-keeps r = Keeps-bind (Keeps-try (get_tenant-keeps p.tenant_id)) λ tenant.
          Keeps-bind (Keeps-try (get_branch-keeps p.branch_id)) λ branch.
            Keeps-bind Keeps-time_now λ now.
              Keeps-bind (look_for_duplicate-keeps r.invoice_data)
                λ o. conclude-keeps r _ o (updates _)

      give_up-keeps : (e : HandlerError) → Keeps P (give_up f u w p e)
      unfolding give_up
      give_up-keeps e = Keeps-bind (Keeps-ignored (updates _)) (λ x. Keeps-pure _)

      with_reading-keeps : (o : Option (ExtractionResult f)) → Keeps P (with_reading f u w p o)
      unfolding with_reading
      with_reading-keeps none = give_up-keeps ocr_error
      with_reading-keeps (some r) = Keeps-bind (process-keeps r) (λ x. Keeps-pure _)

      with_file-keeps : (o : Option Text) → Keeps P (with_file f u w p o)
      unfolding with_file
      with_file-keeps none = give_up-keeps download_error
      with_file-keeps (some bytes) = with_reading-keeps _

-- A property that the statements of a job on the invoice keep is kept by the handler.
pub handle_job-keeps :
    {P : Tables → Type 0} (f : Float64) (u : UnicodeCase) (w : Worker f) (p : ProcessInvoicePayload)
    → KeptByJob p.invoice_id P
    → KeptByLines P
    → ((v : InvoiceUpdate) → Keeps P (update_invoice_data p.invoice_id v))
    → Keeps P (handle_process_invoice f u w (some p))
unfolding handle_process_invoice
handle_job-keeps f u w p k lines updates =
    with_file-keeps f u w p k lines updates (w.download p.file_path)

-- The same for every invoice.
pub handle_process_invoice-keeps :
    {P : Tables → Type 0}
    → ((id : String) → KeptByJob id P)
    → KeptByLines P
    → ((id : String) (v : InvoiceUpdate) → Keeps P (update_invoice_data id v))
    → (f : Float64) (u : UnicodeCase) (w : Worker f) (o : Option ProcessInvoicePayload)
    → Keeps P (handle_process_invoice f u w o)
unfolding handle_process_invoice
handle_process_invoice-keeps k lines updates f u w none = Keeps-pure _
handle_process_invoice-keeps k lines updates f u w (some p) =
    handle_job-keeps f u w p (k p.invoice_id) lines (updates p.invoice_id)
