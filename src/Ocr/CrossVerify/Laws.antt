-- ===== src/Ocr/CrossVerify/Laws.antt =====
-- When the two engines are said to match.
use tax_ocr.Prelude.{
  Bool, true, false, ◌≡◌, sym, ◌↔◌, ◌⊎◌, inr, Text, [], =ₜ_iff, is_empty_iff, arith,
}
use tax_ocr.Float.{Float64, IsIeee}
use tax_ocr.Ocr.Types.{InvoiceData}
use tax_ocr.Ocr.CrossVerify.{
  cross_verify, zero_amount, amount_tolerance, within, tax_ids_match, trusted_total, totals_agree,
  arithmetic_checked,
}

module _ (f : Float64) where
  open f use {F, lit, add, sub, mul, abs, lt, le, eq}

  -- Two amounts are at most 0.50 apart.
  abbrev pub Near : F → F → Type 0
  Near x y = within f (amount_tolerance f) x y ≡ true

  abbrev pub IsPositive : F → Type 0
  IsPositive x = lt (zero_amount f) x ≡ true

  -- Vision has read no total, or one below 1% of GPT's, which is taken for a stray number.
  abbrev pub IsSilent : InvoiceData F → InvoiceData F → Type 0
  IsSilent gpt vision =
      (eq vision.total_amount (zero_amount f) ≡ true)
      ⊎ (IsPositive gpt.total_amount
          × IsPositive vision.total_amount
          × (lt vision.total_amount (mul gpt.total_amount (lit 1 2)) ≡ true))

  -- What the two readings have to satisfy.
  pub record Consistent (gpt vision : InvoiceData F) : Type 0 where
    pub same_vendor :
        (gpt.vendor_tax_id ≡ [])
        ⊎ (vision.vendor_tax_id ≡ [])
        ⊎ (gpt.vendor_tax_id ≡ vision.vendor_tax_id)
    pub same_totals :
        IsSilent gpt vision
        ⊎ (Near gpt.total_amount vision.total_amount
            × ((eq vision.vat_amount (zero_amount f) ≡ true)
                ⊎ Near gpt.vat_amount vision.vat_amount))
    pub adds_up :
        (lt (zero_amount f) gpt.total_before_vat ≡ false)
        ⊎ (lt (zero_amount f) gpt.total_amount ≡ false)
        ⊎ Near (add gpt.total_before_vat gpt.vat_amount) gpt.total_amount

  tax_ids_match_iff : (a b : Text) → (tax_ids_match f a b ≡ true) ↔ ((a ≡ []) ⊎ (b ≡ []) ⊎ (a ≡ b))
  unfolding tax_ids_match
  tax_ids_match_iff a b = ground (arith, is_empty_iff a, is_empty_iff b, =ₜ_iff a b)

  totals_agree_iff :
      (zero : eq (zero_amount f) (zero_amount f) ≡ true) (gpt vision : InvoiceData F)
      → (totals_agree f gpt vision ≡ true) ↔ (
          IsSilent gpt vision
          ⊎ (Near gpt.total_amount vision.total_amount
              × ((eq vision.vat_amount (zero_amount f) ≡ true)
                  ⊎ Near gpt.vat_amount vision.vat_amount)))
  unfolding totals_agree trusted_total
  totals_agree_iff zero gpt vision = ground arith

  arithmetic_checked_iff :
      (gpt : InvoiceData F) (totals : Bool)
      → (arithmetic_checked f gpt totals ≡ true) ↔ (
          (totals ≡ true)
          × ((lt (zero_amount f) gpt.total_before_vat ≡ false)
              ⊎ (lt (zero_amount f) gpt.total_amount ≡ false)
              ⊎ Near (add gpt.total_before_vat gpt.vat_amount) gpt.total_amount))
  unfolding arithmetic_checked
  arithmetic_checked_iff gpt totals = ground arith

  matched_parts :
      (gpt vision : InvoiceData F)
      → ((cross_verify f gpt vision).matched ≡ true) ↔ (
          (tax_ids_match f gpt.vendor_tax_id vision.vendor_tax_id ≡ true)
          × (arithmetic_checked f gpt (totals_agree f gpt vision) ≡ true))
  unfolding cross_verify
  matched_parts gpt vision = ground arith

  module _ (ieee : IsIeee f) where
    -- The readings match exactly when they are consistent: the vendor's tax IDs are equal unless one
    -- is missing, the totals and the VAT are at most 0.50 apart unless Vision is silent on them, and
    -- GPT's amounts add up within 0.50 where they are positive. The 7% check has no part in it.
    pub cross_verify-matched_iff :
        (gpt vision : InvoiceData F)
        → ((cross_verify f gpt vision).matched ≡ true) ↔ Consistent gpt vision
    cross_verify-matched_iff gpt vision =
        let parts = matched_parts gpt vision in
        let tax = tax_ids_match_iff gpt.vendor_tax_id vision.vendor_tax_id in
        let sums = arithmetic_checked_iff gpt (totals_agree f gpt vision) in
        let totals = totals_agree_iff ieee.eq-zero gpt vision in
        (
          λ e.
              let (t, s) = parts.0 e in
              let (a, b) = sums.0 s in
              record { same_vendor = tax.0 t; same_totals = totals.0 a; adds_up = b },
          λ c. parts.1 (tax.1 c.same_vendor, sums.1 (totals.1 c.same_totals, c.adds_up)),
        )

    -- Where Vision has read the same tax ID, total and VAT as GPT, the match depends on GPT's
    -- arithmetic alone, for finite amounts.
    pub cross_verify_same_reading :
        (gpt vision : InvoiceData F)
        → vision.vendor_tax_id ≡ gpt.vendor_tax_id
        → vision.total_amount ≡ gpt.total_amount
        → vision.vat_amount ≡ gpt.vat_amount
        → ieee.IsFinite gpt.total_amount
        → ieee.IsFinite gpt.vat_amount
        → ((cross_verify f gpt vision).matched ≡ true) ↔ (
            (lt (zero_amount f) gpt.total_before_vat ≡ false)
            ⊎ (lt (zero_amount f) gpt.total_amount ≡ false)
            ⊎ Near (add gpt.total_before_vat gpt.vat_amount) gpt.total_amount)
    cross_verify_same_reading gpt vision tax total vat p q =
        let matched = cross_verify-matched_iff gpt vision in
        (
          λ e. (matched.0 e).adds_up,
          λ h. matched.1 (record {
            same_vendor = inr (inr (sym tax));
            same_totals =
                inr (rw (total, vat) (ieee.abs-sub_self _ 5 1 p, inr (ieee.abs-sub_self _ 5 1 q)));
            adds_up = h;
          }),
        )
