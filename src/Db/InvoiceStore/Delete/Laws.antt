-- ===== src/Db/InvoiceStore/Delete/Laws.antt =====
-- What the deletions keep.
use tax_ocr.Prelude.{String, ◌=ₛ◌, ◌≡◌, Bool, subst, List, Option, none, some, arith}
use tax_ocr.Db.Types.{Invoice, InvoiceItem, HitlQueueItem, ReviewerTask}
use tax_ocr.Db.Rows.{find, delete_rows}
use tax_ocr.Db.Monad.{ok, Tables}
use tax_ocr.Db.Keys.{invoice_keyed}
use tax_ocr.Db.Monad.Keeps.{ok_tables, Keeps, Keeps-statement}
use tax_ocr.Db.InvoiceStore.Delete.{
  without_items, delete_invoice_items_by_invoice_id, remove_invoice, delete_invoice,
}

-- The deletion takes rows from three tables.
pub delete_invoice_items_changed :
    {P : Tables → Type 0} (invoice_id : String)
    → ((t : Tables) (p : InvoiceItem → Bool) (q : HitlQueueItem → Bool) (r : ReviewerTask → Bool)
        → P t
        → P (record t {
          invoice_items = delete_rows p t.invoice_items;
          hitl_queue = delete_rows q t.hitl_queue;
          reviewer_tasks = delete_rows r t.reviewer_tasks;
        }))
    → Keeps P (delete_invoice_items_by_invoice_id invoice_id)
unfolding delete_invoice_items_by_invoice_id without_items
delete_invoice_items_changed {P} invoice_id keep =
    Keeps-statement _ λ now t a t' h e. subst P (ok_tables tt a _ t' e) (keep t _ _ _ h)

pub delete_invoice_items-keeps :
    {P : Tables → Type 0}
    → ((t : Tables) (xs : List InvoiceItem) (hs : List HitlQueueItem) (ts : List ReviewerTask)
        → P t
        → P (record t { invoice_items = xs; hitl_queue = hs; reviewer_tasks = ts }))
    → (invoice_id : String) → Keeps P (delete_invoice_items_by_invoice_id invoice_id)
delete_invoice_items-keeps free invoice_id =
    delete_invoice_items_changed invoice_id (λ t p q r h. free t _ _ _ h)

remove_invoice_changed :
    (id : String) (o : Option Invoice) (t t' : Tables) (a : Unit {0})
    → remove_invoice id o t ≡ ok (a, t')
    → record (without_items id t) { invoices = delete_rows (λ x. x.id =ₛ id) t.invoices } ≡ t'
unfolding remove_invoice
remove_invoice_changed id none t t' a e = absurd (ground arith)
remove_invoice_changed id (some v) t t' a e = ground arith

-- The deletion of an invoice takes rows from these and from its own table.
pub delete_invoice_changed :
    {P : Tables → Type 0} (id : String)
    → ((t : Tables) (vs : List Invoice) (p : InvoiceItem → Bool) (q : HitlQueueItem → Bool)
          (r : ReviewerTask → Bool)
        → P t
        → P (record t {
          invoices = vs;
          invoice_items = delete_rows p t.invoice_items;
          hitl_queue = delete_rows q t.hitl_queue;
          reviewer_tasks = delete_rows r t.reviewer_tasks;
        }))
    → Keeps P (delete_invoice id)
unfolding delete_invoice without_items
delete_invoice_changed {P} id keep = Keeps-statement _ λ now t a t' h e.
    subst P (remove_invoice_changed id (find id t.invoices) t t' a e) (keep t _ _ _ _ h)
