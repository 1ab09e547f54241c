-- ===== src/Db/Keys.antt =====
-- The primary keys of the tables of the invoices and of those who bring them in, and whether a
-- foreign key refers to a row.
use tax_ocr.Prelude.{ℕ, String, Bool, List, Text, leb, ltb, ◌^◌, ◌*◌, length}
use tax_ocr.Db.Types.{
  User, DocumentImport, Invoice, InvoiceItem, Vendor, ClassificationRule, Numeric,
}
use tax_ocr.Db.Rows.{Keyed, find}
use tax_ocr.Db.ReviewerStore.{is_some}

instance abbrev pub user_keyed : Keyed User
user_keyed = record { key = λ u. u.id }

instance abbrev pub import_keyed : Keyed DocumentImport
import_keyed = record { key = λ d. d.id }

instance abbrev pub invoice_keyed : Keyed Invoice
invoice_keyed = record { key = λ v. v.id }

instance abbrev pub item_keyed : Keyed InvoiceItem
item_keyed = record { key = λ x. x.id }

instance abbrev pub vendor_keyed : Keyed Vendor
vendor_keyed = record { key = λ v. v.id }

instance abbrev pub rule_keyed : Keyed ClassificationRule
rule_keyed = record { key = λ r. r.id }

-- REFERENCES
abbrev pub refers : {A : Type 0} → ⦃k : Keyed A⦄ → String → List A → Bool
refers id rows = is_some (find id rows)

-- VARCHAR(n)
abbrev pub fits : ℕ → Text → Bool
fits n text = leb (length text) n

-- What a NUMERIC column admits, of `n` digits before the point.
unfoldable pub in_range : ℕ → Numeric → Bool
in_range n x = ltb x.ten_thousandths (10 ^ n * 10000)
