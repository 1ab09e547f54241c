-- ===== src/Api/InvoiceHandlers/Laws.antt =====
-- What a request to verify an invoice does.
use tax_ocr.Prelude.{ℕ, String, ◌≡◌, ◌≢◌, refl, sym, ap, ◌∙◌, subst, false, some, arith}
use tax_ocr.Float.{Float64}
use tax_ocr.Db.Types.{Invoice, Numeric}
use tax_ocr.Db.Rows.{find}
use tax_ocr.Db.Monad.{DbError, not_found, Result, ok, err, Tables, Store, ◌>>=◌}
use tax_ocr.Db.Keys.{invoice_keyed}
use tax_ocr.Db.InvoiceStore.{get_invoice}
use tax_ocr.Db.InvoiceStore.Laws.{get_invoice-keeps}
use tax_ocr.Db.InvoiceStore.Update.{update_invoice_amounts, verify_invoice}
use tax_ocr.Db.InvoiceStore.Update.Laws.{
  OthersAsIn, update_invoice_amounts-others, verify_invoice-others, update_invoice_amounts_found,
  verify_invoice_found,
}
use tax_ocr.Api.ReviewerHandlers.{Response, answer, answering}
use tax_ocr.Api.Auth.{Claims}
use tax_ocr.Api.InvoiceHandlers.{
  Corrections, amounts_of, corrected, confirmed, confirm_amounts, handle_verify_invoice,
  not_found_or_server_error, near, unless_nought,
}

abbrev status_of : Result (Response Invoice) → ℕ
status_of (ok r) = r.status
status_of (err e) = 0

failure_status : (e : DbError) → not_found_or_server_error e ≢ 200
unfolding not_found_or_server_error
failure_status not_found h = ground arith
failure_status e h = ground arith

answer_success :
    (r : Result Invoice)
    → (answer 200 not_found_or_server_error r).status ≡ 200
    → (v : Invoice) × (r ≡ ok v)
unfolding answer
answer_success (ok v) h = (v, refl)
answer_success (err e) h = absurd (failure_status e h)

confirmed_ok :
    (id : String) (claims : Claims) (r : Result (Unit {0})) (s : Store)
    → status_of (confirmed id claims r s).0 ≡ 200
    → (v : Invoice) × (r ≡ ok tt)
      × ((verify_invoice id claims.user_id s).0 ≡ ok v)
      × ((confirmed id claims r s).1 ≡ (verify_invoice id claims.user_id s).1)
unfolding confirmed answering ◌>>=◌
confirmed_ok id claims (err e) s h = absurd (ground (arith, h))
confirmed_ok id claims (ok _) s h =
    let (v, e) = answer_success (verify_invoice id claims.user_id s).0 h in (v, refl, e, refl)

module _ (f : Float64) (to_float : Numeric → f.F) (to_numeric : ℕ → f.F → Numeric) where
  -- The invoice is verified by the user, with the amounts that are given and not 0; and no other
  -- invoice has changed.
  pub record Verified (id : String) (claims : Claims) (c : Corrections f) (before after : Tables)
      : Type 0 where
    pub invoice : Invoice
    pub there : find id after.invoices ≡ some invoice
    pub status : invoice.status ≡ "verified"
    pub verifier : invoice.verified_by ≡ claims.user_id
    pub total_before_vat :
        f.eq c.total_before_vat (f.lit 0 0) ≡ false
        → invoice.total_before_vat ≡ to_numeric 2 c.total_before_vat
    pub vat_amount :
        f.eq c.vat_amount (f.lit 0 0) ≡ false → invoice.vat_amount ≡ to_numeric 2 c.vat_amount
    pub total_amount :
        f.eq c.total_amount (f.lit 0 0) ≡ false → invoice.total_amount ≡ to_numeric 2 c.total_amount
    pub others : OthersAsIn id before after

  given :
      (new old : f.F)
      → f.eq new (f.lit 0 0) ≡ false
      → to_numeric 2 (unless_nought f new old) ≡ to_numeric 2 new
  unfolding unless_nought
  given new old h = rw h refl

  module _ (id : String) (claims : Claims) (c : Corrections f) where
    confirm_amounts_ok :
        (a cur : Corrections f) (before : Tables) (s : Store)
        → a ≡ corrected f c cur
        → OthersAsIn id before s.tables
        → status_of (confirm_amounts f to_float to_numeric id claims a s).0 ≡ 200
        → Verified id claims c before (confirm_amounts f to_float to_numeric id claims a s).1.tables
    unfolding confirm_amounts corrected ◌>>=◌
    confirm_amounts_ok a cur before s is others h =
        let m =
          update_invoice_amounts id (to_numeric 2 a.total_before_vat) (to_numeric 2 a.vat_amount)
            (to_numeric 2 a.total_amount)
            (near f (f.mul a.total_before_vat (f.lit 7 2)) a.vat_amount) in
        let (v, written, verified, tables) = confirmed_ok id claims (m s).0 (m s).1 h in
        let (y, there, now) = verify_invoice_found id claims.user_id (m s).1 v verified in
        let (total_before_vat, vat_amount, total_amount, _) =
          update_invoice_amounts_found id _ _ _ _ s y written there in
        record {
          invoice = _;
          there = ap (λ (s : Store). find id s.tables.invoices) tables ∙ now;
          status = refl;
          verifier = refl;
          total_before_vat =
              λ q. total_before_vat ∙ ap (λ z. to_numeric 2 z.total_before_vat) is ∙ given _ _ q;
          vat_amount = λ q. vat_amount ∙ ap (λ z. to_numeric 2 z.vat_amount) is ∙ given _ _ q;
          total_amount = λ q. total_amount ∙ ap (λ z. to_numeric 2 z.total_amount) is ∙ given _ _ q;
          others =
              subst (λ (s : Store). OthersAsIn id before s.tables) (sym tables)
                ((verify_invoice-others before id claims.user_id).at (m s).1
                  ((update_invoice_amounts-others before id _ _ _ _).at s others));
        }

    -- A request to verify an invoice that is answered with 200 leaves it verified by the user, with
    -- each amount that the request gives and that is not 0, and every other invoice as it was,
    -- whichever statements fail.
    pub handle_verify_invoice_ok :
        (s : Store) (resp : Response Invoice)
        → (handle_verify_invoice f to_float to_numeric id (some claims) c s).0 ≡ ok resp
        → resp.status ≡ 200
        → Verified id claims c s.tables
            (handle_verify_invoice f to_float to_numeric id (some claims) c s).1.tables
    unfolding handle_verify_invoice ◌>>=◌
    handle_verify_invoice_ok s resp e success =
        confirm_amounts_ok _ (amounts_of f to_float to_numeric (get_invoice id s).0) s.tables
          (get_invoice id s).1 refl
          ((get_invoice-keeps {P = OthersAsIn id s.tables} id).at s (λ j differ. refl))
          (ap status_of e ∙ success)
