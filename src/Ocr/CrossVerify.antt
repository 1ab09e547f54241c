-- ===== src/Ocr/CrossVerify.antt =====
-- backend/internal/ocr/crossverify.go.
pub mod Laws
use tax_ocr.Prelude.{Bool, true, ◌&&◌, ◌||◌, not, if◌then◌else◌, Text, ◌=ₜ◌, is_empty}
use tax_ocr.Float.{Float64}
use tax_ocr.Ocr.Types.{InvoiceData}

pub record VerifyResult : Type 0 where
  pub tax_id_match : Bool
  pub totals_match : Bool
  -- stated VAT ≈ total before VAT × 7%
  pub vat_math_ok : Bool
  pub matched : Bool

module _ (f : Float64) where
  open f use {F, lit, add, sub, mul, abs, lt, le, eq}

  abbrev pub zero_amount : F
  zero_amount = lit 0 0

  abbrev pub amount_tolerance : F
  amount_tolerance = lit 5 1

  abbrev pub vat_math_tolerance : F
  vat_math_tolerance = lit 2 2

  abbrev pub vat_rate : F
  vat_rate = lit 7 2

  -- math.Abs(x-y) <= tolerance
  abbrev pub within : F → F → F → Bool
  within tolerance x y = le (abs (sub x y)) tolerance

  -- `r.taxIDMatch`
  tax_ids_match : Text → Text → Bool
  tax_ids_match gpt vision =
      if not (is_empty gpt) && not (is_empty vision) then gpt =ₜ vision else true

  -- `visionTotal`: 0 in place of a total below 1% of the one that GPT read.
  trusted_total : F → F → F
  trusted_total gpt vision =
      if lt zero_amount gpt && lt zero_amount vision && lt vision (mul gpt (lit 1 2))
      then zero_amount
      else vision

  -- `r.totalsMatch` before the arithmetic check.
  totals_agree : InvoiceData F → InvoiceData F → Bool
  totals_agree gpt vision =
      let vision_total = trusted_total gpt.total_amount vision.total_amount in
      if eq vision_total zero_amount
      then true
      else within amount_tolerance gpt.total_amount vision_total
        && (eq vision.vat_amount zero_amount
            || within amount_tolerance gpt.vat_amount vision.vat_amount)

  -- `r.totalsMatch` after the arithmetic check.
  arithmetic_checked : InvoiceData F → Bool → Bool
  arithmetic_checked gpt totals =
      if lt zero_amount gpt.total_before_vat && lt zero_amount gpt.total_amount
      then totals
        && within amount_tolerance (add gpt.total_before_vat gpt.vat_amount) gpt.total_amount
      else totals

  -- `r.vatMathOK`
  vat_math : InvoiceData F → Bool
  vat_math gpt =
      if lt zero_amount gpt.total_before_vat
      then within vat_math_tolerance gpt.vat_amount (mul gpt.total_before_vat vat_rate)
      else true

  unfoldable pub cross_verify : InvoiceData F → InvoiceData F → VerifyResult
  unfolding tax_ids_match trusted_total totals_agree arithmetic_checked vat_math
  cross_verify gpt vision =
      let tax = tax_ids_match gpt.vendor_tax_id vision.vendor_tax_id in
      let totals = arithmetic_checked gpt (totals_agree gpt vision) in
      record {
        tax_id_match = tax;
        totals_match = totals;
        vat_math_ok = vat_math gpt;
        matched = tax && totals;
      }
