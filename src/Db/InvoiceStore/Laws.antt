-- ===== src/Db/InvoiceStore/Laws.antt =====
-- What the queries of invoices keep: they change nothing.
use tax_ocr.Prelude.{
  String, ◌=ₛ◌, ◌≡◌, ◌||◌, subst, Option, none, some, Text, is_empty, Bool-cases, inl, inr, arith,
}
use tax_ocr.Db.Types.{Invoice}
use tax_ocr.Db.Monad.{ok, Tables}
use tax_ocr.Db.Monad.Keeps.{Keeps, Keeps-raise, Keeps-statement}
use tax_ocr.Db.InvoiceStore.{shown_row, get_invoice, find_duplicate_invoice}

shown_row_same :
    (o : Option Invoice) (t t' : Tables) (a : Invoice) → shown_row o t ≡ ok (a, t') → t ≡ t'
unfolding shown_row
shown_row_same none t t' a e = cc
shown_row_same (some v) t t' a e = ground arith

module _ {P : Tables → Type 0} where
  pub get_invoice-keeps : (id : String) → Keeps P (get_invoice id)
  unfolding get_invoice
  get_invoice-keeps id = Keeps-statement _ λ now t a t' h e. subst P (shown_row_same _ t t' a e) h

  pub find_duplicate_invoice-keeps :
      (tenant_id : String) (vendor_tax_id invoice_doc_no : Text) (exclude_id : String)
      → Keeps P (find_duplicate_invoice tenant_id vendor_tax_id invoice_doc_no exclude_id)
  unfolding find_duplicate_invoice
  find_duplicate_invoice-keeps tenant_id vendor_tax_id invoice_doc_no exclude_id =
      elim (Bool-cases (tenant_id =ₛ "" || is_empty vendor_tax_id || is_empty invoice_doc_no)) [
        | inl e ↦ rw e (Keeps-raise _)
        | inr e ↦ rw e (Keeps-statement _ λ now t a t' h q. subst P (shown_row_same _ t t' a q) h)
      ]
