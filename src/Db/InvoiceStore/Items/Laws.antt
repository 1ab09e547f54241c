-- ===== src/Db/InvoiceStore/Items/Laws.antt =====
-- What the statements on invoice_items keep.
use tax_ocr.Prelude.{◌=ₛ◌, ◌≡◌, ◌||◌, is_empty, List, [], ◌∷◌, ◌++◌, Bool-cases, inl, inr, arith}
use tax_ocr.Db.Types.{InvoiceItem}
use tax_ocr.Db.Monad.{ok, Tables}
use tax_ocr.Db.Monad.Keeps.{Keeps, Keeps-raise, Keeps-new_id, Keeps-bind, Keeps-statement}
use tax_ocr.Db.InvoiceStore.Items.{insert_item, create_invoice_item}

insert_item_tables :
    (x : InvoiceItem) (t t' : Tables) (a : InvoiceItem)
    → insert_item x t ≡ ok (a, t')
    → t' ≡ record t { invoice_items = t.invoice_items ++ x ∷ [] }
unfolding insert_item
insert_item_tables x t t' a e = ground arith

module _ {P : Tables → Type 0}
    (free : (t : Tables) (xs : List InvoiceItem) → P t → P (record t { invoice_items = xs })) where
  pub create_invoice_item-keeps : (input : InvoiceItem) → Keeps P (create_invoice_item input)
  unfolding create_invoice_item
  create_invoice_item-keeps input =
      elim (Bool-cases (input.invoice_id =ₛ "" || is_empty input.description)) [
        | inl e ↦ rw e (Keeps-raise _)
        | inr e ↦ rw e (
            Keeps-bind Keeps-new_id λ new. Keeps-statement _ λ now t a t' h q.
              rw
                (insert_item_tables (record input { id = new; created_at = now; updated_at = now })
                  t t' a q)
                (free t _ h))
      ]
