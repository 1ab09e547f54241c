-- ===== src/Queue/Worker/Duplicates.antt =====
-- An invoice that repeats one of the same vendor.
use tax_ocr.Prelude.{String, ◌≡◌, refl, Bool, false, some}
use tax_ocr.Float.{Float64}
use tax_ocr.GoStrings.Case.{UnicodeCase}
use tax_ocr.Db.Types.{Invoice, InvoiceItem, HitlQueueItem, ReviewerTask}
use tax_ocr.Db.Rows.{exists, exists-delete_rows}
use tax_ocr.Db.Monad.{failing, later, ok, Tables, Store}
use tax_ocr.Db.VendorStore.Laws.{link_invoice_vendor-keeps, upsert_vendor_from_ocr-keeps}
use tax_ocr.Db.InvoiceStore.{find_duplicate_invoice}
use tax_ocr.Db.InvoiceStore.Delete.Laws.{delete_invoice_items_changed}
use tax_ocr.Db.InvoiceStore.Update.Laws.{update_invoice_data-keeps}
use tax_ocr.Ocr.Service.{ExtractionResult}
use tax_ocr.Queue.Job.{ProcessInvoicePayload, Worker}
use tax_ocr.Queue.Worker.{found, look_for_duplicate, handle_process_invoice}
use tax_ocr.Queue.Worker.Laws.{KeptByJob, conclude_duplicate-keeps, look_for_duplicate-keeps}
use tax_ocr.Queue.Worker.Steps.{WasRead, next, verdict_at, handled_tables}

-- Whatever row is in none of the three tables of `before` is in none of those of `t`.
pub record NothingAdded (before t : Tables) : Type 0 where
  pub no_item :
      (q : InvoiceItem → Bool)
      → exists q before.invoice_items ≡ false
      → exists q t.invoice_items ≡ false
  pub no_entry :
      (q : HitlQueueItem → Bool)
      → exists q before.hitl_queue ≡ false
      → exists q t.hitl_queue ≡ false
  pub no_task :
      (q : ReviewerTask → Bool)
      → exists q before.reviewer_tasks ≡ false
      → exists q t.reviewer_tasks ≡ false

-- The same where the three tables are the same.
moved :
    (before t t' : Tables)
    → t'.invoice_items ≡ t.invoice_items
    → t'.hitl_queue ≡ t.hitl_queue
    → t'.reviewer_tasks ≡ t.reviewer_tasks
    → NothingAdded before t
    → NothingAdded before t'
moved before t t' a b c n = record {
  no_item = λ q h. rw a (n.no_item q h);
  no_entry = λ q h. rw b (n.no_entry q h);
  no_task = λ q h. rw c (n.no_task q h);
}

module _ (before : Tables) where
  NothingAdded-job : (invoice_id : String) → KeptByJob invoice_id (NothingAdded before)
  NothingAdded-job invoice_id = record {
    import_free = λ t ds n. moved before t _ refl refl refl n;
    deletes = delete_invoice_items_changed invoice_id λ t p q r n. record {
      no_item = λ s h. exists-delete_rows s p t.invoice_items (n.no_item s h);
      no_entry = λ s h. exists-delete_rows s q t.hitl_queue (n.no_entry s h);
      no_task = λ s h. exists-delete_rows s r t.reviewer_tasks (n.no_task s h);
    };
    upserts = upsert_vendor_from_ocr-keeps (λ t vs n. moved before t _ refl refl refl n);
    links = link_invoice_vendor-keeps (λ t vs n. moved before t _ refl refl refl n) invoice_id;
  }

-- When the invoice was read, the queries of the tenant and the branch do not fail, and the search for
-- a duplicate answers with the same vendor's document of the same number, the job adds no line item,
-- no entry for review and no review task, whichever of the statements after these fail.
pub handle_process_invoice_duplicate :
    (f : Float64) (u : UnicodeCase) (w : Worker f) (p : ProcessInvoicePayload)
    (r : ExtractionResult f) (s : Store) (existing : Invoice)
    → WasRead f u w p r
    → failing s.faults ≡ false
    → failing (later s.faults) ≡ false
    → (find_duplicate_invoice p.tenant_id r.invoice_data.vendor_tax_id r.invoice_data.invoice_doc_no
        p.invoice_id
        (next (next s))).0
      ≡ ok existing
    → NothingAdded s.tables (handle_process_invoice f u w (some p) s).1.tables
unfolding found
handle_process_invoice_duplicate f u w p r s existing read first second double =
    let job = NothingAdded-job s.tables p.invoice_id in
    let start : NothingAdded s.tables s.tables = record {
      no_item = λ q h. h;
      no_entry = λ q h. h;
      no_task = λ q h. h;
    } in
    let looked = (look_for_duplicate-keeps f u w p job r.invoice_data).at (next (next s)) start in
    rw (handled_tables f u w p r s read first second, double)
      ((conclude_duplicate-keeps f u w p job r (verdict_at f u w p r s) existing.id (
          update_invoice_data-keeps (λ t vs n. moved s.tables t _ refl refl refl n) p.invoice_id
            _)).at
        (look_for_duplicate f u w p r.invoice_data (next (next s))).1 looked)
