-- ===== src/Queue/Buyer/Laws.antt =====
-- Which buyers `validateBuyer` lets pass, and which reason it gives for the others.
use tax_ocr.Prelude.{
  sym, ◌∙◌, Bool-cases, false_true, eq_iff, String, ◌=ₛ◌, not, ◌&&◌, ◌≡◌, refl, ap, ◌↔◌, ◌⊎◌, ◌≢◌,
  inl, inr, true, false, Bool, Text, [], ◌=ₜ◌, is_empty, is_empty_iff, =ₜ_iff, ◌<◌, ◌^◌, length,
  arith, if◌then◌else◌,
}
use tax_ocr.Float.{Float64, IsIeee}
use tax_ocr.GoStrings.{trim_space}
use tax_ocr.GoStrings.Case.{UnicodeCase}
use tax_ocr.Db.Types.{Tenant, Branch}
use tax_ocr.Queue.Similarity.Laws.{differs, string_similarity-lt}
use tax_ocr.Queue.BranchCode.{normalize_branch_code}
use tax_ocr.Queue.Buyer.{Verdict, no_complaint, invalid, validate_buyer}

-- A check of two texts is skipped where one of them is missing.
abbrev pub Agree : Text → Text → Type 0
Agree a b = (a ≡ []) ⊎ (b ≡ []) ⊎ (a ≡ b)

Agree-iff :
    (a b : Text) → ((not (is_empty a) && (not (is_empty b) && not (a =ₜ b))) ≡ false) ↔ Agree a b
Agree-iff a b = ground (arith, is_empty_iff a, is_empty_iff b, =ₜ_iff a b)

-- What the tenant and the branch ask of the buyer on a tax invoice: the tax IDs are equal if the
-- invoice has one, the branch codes are equal after normalisation if both are given, and the names
-- differ in at most 3 of 20 runes if both are given.
pub record BuyerMatches (u : UnicodeCase) (tax_id code name : Text) (tenant : Tenant)
    (branch : Branch) : Type 0 where
  pub tax_id_matches : (tax_id ≡ []) ⊎ (tax_id ≡ tenant.tax_id)
  pub branch_matches : Agree (normalize_branch_code u code) (normalize_branch_code u branch.code)
  pub name_matches :
      (name ≡ [])
      ⊎ (tenant.name ≡ [])
      ⊎ (differs (trim_space name) (trim_space tenant.name) ≡ false)

-- The document is a tax invoice, or has no type. A type that is read as "unknown" is neither.
abbrev pub IsTaxInvoice : String → Type 0
IsTaxInvoice doc_type = (doc_type ≡ "tax_invoice") ⊎ (doc_type ≡ "")

-- The first of three failing checks gives the reason.
abbrev verdict : Bool → Bool → Bool → Verdict
verdict tax code name =
    if tax
    then invalid "buyer_tax_id_mismatch"
    else if code
    then invalid "buyer_branch_code_mismatch"
    else if name
    then invalid "buyer_name_mismatch"
    else no_complaint

invalid-ne : (r : String) → invalid r ≢ no_complaint
invalid-ne r e = cc (ap (λ (v : Verdict). v.0) e)

verdict_iff :
    (a b c : Bool) → (verdict a b c ≡ no_complaint) ↔ ((a ≡ false) × (b ≡ false) × (c ≡ false))
verdict_iff true b c = (λ e. absurd (invalid-ne _ e), λ h. cc (h.0))
verdict_iff false true c = (λ e. absurd (invalid-ne _ e), λ h. cc (h.1))
verdict_iff false false true = (λ e. absurd (invalid-ne _ e), λ h. cc (h.2))
verdict_iff false false false = (λ e. (refl, refl, refl), λ h. refl)

IsTaxInvoice-iff :
    (d : String) → ((not (d =ₛ "tax_invoice") && not (d =ₛ "")) ≡ false) ↔ IsTaxInvoice d
IsTaxInvoice-iff d = ground (arith, eq_iff d "tax_invoice", eq_iff d "")

tax_id_iff : (a b : Text) → ((not (is_empty a) && not (a =ₜ b)) ≡ false) ↔ ((a ≡ []) ⊎ (a ≡ b))
tax_id_iff a b = ground (arith, is_empty_iff a, =ₜ_iff a b)

name_iff :
    (a b : Text) (lt differ : Bool)
    → lt ≡ differ
    → (((not (is_empty a) && not (is_empty b)) && lt) ≡ false)
      ↔ ((a ≡ []) ⊎ (b ≡ []) ⊎ (differ ≡ false))
name_iff a b lt differ e = ground (arith, is_empty_iff a, is_empty_iff b)

module _ (f : Float64) (u : UnicodeCase) (ieee : IsIeee f) (tax_id code name : Text)
    (tenant : Tenant) (branch : Branch) (short_name : length (trim_space name) < 2 ^ 40)
    (short_tenant : length (trim_space tenant.name) < 2 ^ 40) where
  -- There is no complaint exactly for a document that has a type other than that of a tax invoice, and
  -- for one whose buyer matches the tenant and the branch, for names of fewer than 2^40 runes and a
  -- float64 that is one of IEEE 754.
  pub validate_buyer_iff :
      (doc_type : String)
      → (validate_buyer f u doc_type tax_id code name tenant branch ≡ no_complaint)
        ↔ ((¬ IsTaxInvoice doc_type) ⊎ BuyerMatches u tax_id code name tenant branch)
  unfolding validate_buyer
  validate_buyer_iff doc_type =
      let tax = tax_id_iff tax_id tenant.tax_id in
      let codes = Agree-iff (normalize_branch_code u code) (normalize_branch_code u branch.code) in
      let names =
        name_iff name tenant.name _ _
          (string_similarity-lt f ieee name tenant.name short_name short_tenant) in
      let typed = IsTaxInvoice-iff doc_type in
      elim (Bool-cases (not (doc_type =ₛ "tax_invoice") && not (doc_type =ₛ ""))) [
        | inl other ↦
            rw other (λ e. inl (λ h. absurd (false_true (sym (typed.1 h) ∙ other))), λ m. refl)
        | inr tax_invoice ↦ rw tax_invoice (
          λ e.
              let (a, b, c) = (verdict_iff _ _ _).0 e in
              inr (record {
                tax_id_matches = tax.0 a;
                branch_matches = codes.0 b;
                name_matches = names.0 c;
              }),
          λ m. (verdict_iff _ _ _).1 (elim m [
            | inl h ↦ absurd (h (typed.0 tax_invoice))
            | inr h ↦ (tax.1 h.tax_id_matches, codes.1 h.branch_matches, names.1 h.name_matches)
          ]),
        )
      ]
