-- ===== src/Db/InvoiceStore/Items.antt =====
-- backend/internal/db/invoice_store.go: the lines of the invoices, with the constraints of the
-- migrations 007 and 028.
pub mod Laws
use tax_ocr.Prelude.{
  String, ◌=ₛ◌, Bool, true, ◌&&◌, ◌||◌, not, if◌then◌else◌, Option, none, some, is_empty, List, [],
  ◌∷◌, ◌++◌, reverse,
}
use tax_ocr.Db.Types.{InvoiceItem, Numeric}
use tax_ocr.Db.Rows.{update_row}
use tax_ocr.Db.Monad.{
  invalid_input, query_failed, Result, ok, err, Tables, Db, raise, statement, ◌>>=◌, new_id,
}
use tax_ocr.Db.TenantStore.{tenant_keyed, branch_keyed}
use tax_ocr.Db.Keys.{invoice_keyed, item_keyed, refers, fits, in_range}
use tax_ocr.Db.Listings.{newest_first}

-- ORDER BY created_at
unfoldable pub list_invoice_items : (invoice_id : String) → Db (List InvoiceItem)
list_invoice_items invoice_id = statement λ now t. ok (
  reverse (newest_first (λ x. x.invoice_id =ₛ invoice_id) (λ x. x.created_at) t.invoice_items),
  t,
)

-- CHECK (asset_type IN …), CHECK (classified_by IN …), and what the types of the columns admit.
unfoldable pub item_allowed : InvoiceItem → Bool
item_allowed x =
    (x.asset_type =ₛ "asset" || x.asset_type =ₛ "expense" || x.asset_type =ₛ "pending")
    && (x.classified_by =ₛ "rule" || x.classified_by =ₛ "ai" || x.classified_by =ₛ "human")
    && fits 100 x.product_code
    && fits 50 x.unit
    && in_range 11 x.quantity
    && in_range 13 x.unit_price
    && in_range 13 x.discount
    && in_range 13 x.total_price

insert_item : InvoiceItem → Tables → Result (InvoiceItem × Tables)
insert_item x t =
    if item_allowed x
      && not (refers x.id t.invoice_items)
      && refers x.tenant_id t.tenants
      && refers x.branch_id t.branches
      && refers x.invoice_id t.invoices
    then ok (x, record t { invoice_items = t.invoice_items ++ x ∷ [] })
    else err query_failed

-- `input` with the id and the times that the table gives it.
unfoldable pub create_invoice_item : InvoiceItem → Db InvoiceItem
unfolding insert_item item_allowed in_range
create_invoice_item input =
    if input.invoice_id =ₛ "" || is_empty input.description then raise invalid_input else do
      id ← new_id
      statement
          λ now t. insert_item (record input { id = id; created_at = now; updated_at = now }) t

store_item : Option (InvoiceItem × List InvoiceItem) → Tables → Result (Unit {0} × Tables)
store_item none t = ok (tt, t)
store_item (some (x, xs)) t =
    if item_allowed x then ok (tt, record t { invoice_items = xs }) else err query_failed

unfoldable pub update_invoice_item :
    (id : String) (quantity unit_price discount total_price : Numeric) → Db (Unit {0})
unfolding store_item
update_invoice_item id quantity unit_price discount total_price = statement λ now t.
    store_item
      (update_row id (λ x. true)
        (λ x. record x {
          quantity = quantity;
          unit_price = unit_price;
          discount = discount;
          total_price = total_price;
          updated_at = now;
        })
        t.invoice_items)
      t
