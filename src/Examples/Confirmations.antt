-- ===== src/Examples/Confirmations.antt =====
-- The invoice of the company is verified by its clerk, with a total that was corrected.
use tax_ocr.Prelude.{◌≡◌, refl, some, false, [], ◌-◌, ◌*◌, ◌/◌, ltb}
use tax_ocr.Float.Fractions.{fractions, Fraction}
use tax_ocr.Db.Types.{Numeric, Invoice}
use tax_ocr.Db.Monad.{ok, Store, statement, ◌>>=◌}
use tax_ocr.Db.Rows.{find, update_row, exists, set_row}
use tax_ocr.Db.Keys.{in_range}
use tax_ocr.Db.ReviewerStore.{is_some}
use tax_ocr.Db.InvoiceStore.{get_invoice, admits, invoice_allowed, clashes}
use tax_ocr.Db.InvoiceStore.Update.{update_invoice_amounts, verify_invoice}
use tax_ocr.Api.Auth.{Claims}
use tax_ocr.Api.ReviewerHandlers.{Response, answering, answer}
use tax_ocr.Api.InvoiceHandlers.{Corrections, handle_verify_invoice, corrected}
use tax_ocr.Api.InvoiceHandlers.Laws.{Verified, handle_verify_invoice_ok}
use tax_ocr.Examples.Rows.{one_invoice, receipt}

abbrev to_float : Numeric → fractions.F
to_float x = fractions.lit x.ten_thousandths 4

abbrev in_ten_thousandths : Fraction → Numeric
in_ten_thousandths x = record {
  is_negative = ltb x.plus x.minus;
  ten_thousandths = (x.plus - x.minus) * 10000 / x.over;
}

abbrev claims : Claims
claims = record { user_id = "u"; tenant_id = "tenant"; name = "Clerk"; role = "accountant" }

abbrev corrections : Corrections fractions
corrections = record {
  total_before_vat = fractions.lit 0 0;
  vat_amount = fractions.lit 0 0;
  total_amount = fractions.lit 10700 2;
}

abbrev at_the_desk : Store
at_the_desk = record {
  tables = one_invoice;
  now = 100;
  uuid = λ n. "new";
  serial = 0;
  invoice_numbers = 2;
  faults = [];
  outbox = [];
}

abbrev answered : Response Invoice
answered = record {
  status = 200;
  body = some (record receipt {
    total_amount = record { is_negative = false; ten_thousandths = 1070000 };
    status = "verified";
    verified_by = "u";
    verified_at = some 100;
    updated_at = 100;
  });
}

verified :
    (handle_verify_invoice fractions to_float
      (λ decimals. in_ten_thousandths)
      "invoice"
      (some claims)
      corrections
      at_the_desk).0
    ≡ ok answered
unfolding handle_verify_invoice corrected get_invoice update_invoice_amounts verify_invoice ◌>>=◌
    statement answering answer find update_row admits invoice_allowed in_range is_some exists
    clashes set_row
verified = refl

handle_verify_invoice_ok_example :
    Verified fractions to_float
      (λ decimals. in_ten_thousandths)
      "invoice"
      claims
      corrections
      one_invoice
      (handle_verify_invoice fractions to_float
        (λ decimals. in_ten_thousandths)
        "invoice"
        (some claims)
        corrections
        at_the_desk).1.tables
handle_verify_invoice_ok_example =
    handle_verify_invoice_ok fractions to_float (λ decimals. in_ten_thousandths) "invoice" claims
      corrections at_the_desk answered verified refl
