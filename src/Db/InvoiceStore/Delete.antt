-- ===== src/Db/InvoiceStore/Delete.antt =====
-- backend/internal/db/invoice_store.go: deletions, with what the foreign keys delete along. An item
-- of an invoice takes its entries of hitl_queue with it, and these their review tasks.
pub mod Laws
use tax_ocr.Prelude.{String, ◌=ₛ◌, Bool, ◌&&◌, not, if◌then◌else◌, Option, none, some, List}
use tax_ocr.Db.Types.{Invoice, InvoiceItem, HitlQueueItem}
use tax_ocr.Db.Rows.{find, exists, delete_rows}
use tax_ocr.Db.Monad.{not_found, query_failed, Result, ok, err, Tables, Db, statement}
use tax_ocr.Db.Keys.{invoice_keyed}

of_item : String → List InvoiceItem → String → Bool
of_item invoice_id items item_id = exists (λ x. x.invoice_id =ₛ invoice_id && x.id =ₛ item_id) items

of_entry : String → List InvoiceItem → List HitlQueueItem → String → Bool
of_entry invoice_id items entries hitl_id =
    exists (λ h. of_item invoice_id items h.invoice_item_id && h.id =ₛ hitl_id) entries

without_items : String → Tables → Tables
without_items invoice_id t = record t {
  invoice_items = delete_rows (λ x. x.invoice_id =ₛ invoice_id) t.invoice_items;
  hitl_queue = delete_rows (λ h. of_item invoice_id t.invoice_items h.invoice_item_id) t.hitl_queue;
  reviewer_tasks =
      delete_rows (λ x. of_entry invoice_id t.invoice_items t.hitl_queue x.hitl_queue_id)
        t.reviewer_tasks;
}

unfoldable pub delete_invoice_items_by_invoice_id : String → Db (Unit {0})
unfolding of_item of_entry without_items
delete_invoice_items_by_invoice_id invoice_id =
    statement (λ now t. ok (tt, without_items invoice_id t))

-- invoices.duplicate_of REFERENCES invoices
is_duplicated : String → List Invoice → Bool
is_duplicated id invoices = exists (λ v. v.duplicate_of =ₛ id && not (v.id =ₛ id)) invoices

remove_invoice : String → Option Invoice → Tables → Result (Unit {0} × Tables)
remove_invoice id none t = err not_found
remove_invoice id (some v) t =
    if is_duplicated id t.invoices
    then err query_failed
    else ok
        (tt, record (without_items id t) { invoices = delete_rows (λ x. x.id =ₛ id) t.invoices })

unfoldable pub delete_invoice : String → Db (Unit {0})
unfolding of_item of_entry without_items is_duplicated remove_invoice
delete_invoice id = statement (λ now t. remove_invoice id (find id t.invoices) t)
