-- ===== src/Ocr/Service/Laws.antt =====
-- What an extraction makes of a reading.
use tax_ocr.Prelude.{
  ◌≡◌, refl, ◌↔◌, ◌⊎◌, inl, inr, true, false, if◌then◌else◌, String, [], is_empty, some, none,
}
use tax_ocr.Float.{Float64, IsIeee}
use tax_ocr.Ocr.Types.{InvoiceData}
use tax_ocr.Ocr.CrossVerify.{zero_amount, cross_verify}
use tax_ocr.Ocr.CrossVerify.Laws.{Near, cross_verify-matched_iff}
use tax_ocr.Ocr.Service.{
  Clients, has_config, is_set, ExtractionRequest, is_image, ExtractionResult, Engines, no_data,
  dual_extract, extract, read_vision, read_gpt, with_vision, dual_result,
}

module _ (f : Float64) (ieee : IsIeee f) (engines : Engines f) where
  -- The amounts of a reading add up within 0.50, or there are none.
  abbrev pub AddsUp : InvoiceData f.F → Type 0
  AddsUp d =
      (f.lt (zero_amount f) d.total_before_vat ≡ false)
      ⊎ (f.lt (zero_amount f) d.total_amount ≡ false)
      ⊎ Near f (f.add d.total_before_vat d.vat_amount) d.total_amount

  -- What the extraction makes of the reading.
  gpt_result : InvoiceData f.F → ExtractionResult f
  gpt_result d =
      let verify = cross_verify f d (no_data f) in
      record {
        invoice_data = d;
        matched = verify.matched;
        vat_math_ok = verify.vat_math_ok;
        raw_text = [];
        confidence = if verify.matched then f.lit 95 2 else f.lit 6 1;
        engine = "dual";
      }

  -- With nothing read by Vision, what GPT has read is checked against itself alone.
  unchecked_iff : (d : InvoiceData f.F) → ((cross_verify f d (no_data f)).matched ≡ true) ↔ AddsUp d
  unchecked_iff d =
      let consistent = cross_verify-matched_iff f ieee d (no_data f) in
      (
        λ e. (consistent.0 e).adds_up,
        λ h. consistent.1 (record {
          same_vendor = inr (inl refl);
          same_totals = inl (inl ieee.eq-zero);
          adds_up = h;
        }),
      )

  -- Where Vision is not configured and GPT reads an image, for a float64 that is one of IEEE 754, the
  -- extraction returns what GPT has read, without a text; it is matched, at the confidence 0.95 of two
  -- engines that agree, exactly when the amounts of this one reading add up, and is at 0.6 else.
  pub extract_without_vision :
      (s : Clients) (req : ExtractionRequest) (key : String) (d : InvoiceData f.F)
      → s.gpt ≡ some key
      → s.vision ≡ none
      → is_image req.content_type ≡ true
      → is_empty req.file_bytes ≡ false
      → engines.extract_from_image key req.file_bytes req.content_type ≡ some d
      → (r : ExtractionResult f) × (extract f engines s req ≡ some r)
        × (r.invoice_data ≡ d)
        × (r.raw_text ≡ [])
        × ((r.matched ≡ true) ↔ AddsUp d)
        × (r.confidence ≡ (if r.matched then f.lit 95 2 else f.lit 6 1))
  unfolding extract has_config is_set dual_extract read_vision read_gpt with_vision dual_result
      is_empty gpt_result
  extract_without_vision s req key d gpt vision image bytes read =
      (gpt_result d, rw (gpt, vision, image, bytes, read) refl, refl, refl, unchecked_iff d, refl)
