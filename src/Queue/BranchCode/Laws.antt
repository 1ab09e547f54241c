-- ===== src/Queue/BranchCode/Laws.antt =====
-- What `normalizeBranchCode` guarantees.
use tax_ocr.Prelude.{
  ℕ, ◌+◌, ◌-◌, ◌*◌, ◌/◌, ◌%◌, ◌≤◌, ◌<◌, ◌≡◌, refl, ap, ap₂, subst, ◌∙◌, ◌↔◌, sym, true, false, Text,
  List, [], ◌∷◌, map, ◌=ₜ◌, =ₜ→eq, length, All, arith, Bool-cases, inl, inr,
}
use tax_ocr.GoStrings.{trim_space, is_digit}
use tax_ocr.GoStrings.Trim.{trim_space-trim_space, trim_space_bare, is_space-digit}
use tax_ocr.GoStrings.Case.{UnicodeCase, IsUnicode}
use tax_ocr.Queue.BranchCode.{
  head_office_names, is_one_of, is_head_office, is_short_number, all_digits, atoi, atoi_from,
  five_digits, normalize_branch_code,
}

-- Five digits are read back as the number that was written.
pub atoi-five_digits : (n : ℕ) → n < 100000 → atoi (five_digits n) ≡ n
unfolding atoi five_digits
atoi-five_digits n h = omega arith

digit_runes : (n : ℕ) → n < 10 → (is_digit (48 + n) ≡ true)
unfolding is_digit
digit_runes n h = ground arith

five_digits-is_short_number : (n : ℕ) → is_short_number (five_digits n) ≡ true
unfolding is_short_number all_digits five_digits
five_digits-is_short_number n = rw (
  digit_runes (n / 10000 % 10) (omega arith),
  digit_runes (n / 1000 % 10) (omega arith),
  digit_runes (n / 100 % 10) (omega arith),
  digit_runes (n / 10 % 10) (omega arith),
  digit_runes (n % 10) (omega arith),
)

trim_space-five_digits : (n : ℕ) → trim_space (five_digits n) ≡ five_digits n
unfolding five_digits
trim_space-five_digits n = trim_space_bare (five_digits n) (
  is_space-digit (n / 10000 % 10) (omega arith),
  (
    is_space-digit (n / 1000 % 10) (omega arith),
    (
      is_space-digit (n / 100 % 10) (omega arith),
      (is_space-digit (n / 10 % 10) (omega arith), (is_space-digit (n % 10) (omega arith), tt)),
    ),
  ),
)

all_digits-cons :
    (c : ℕ) (s : Text) → all_digits (c ∷ s) ≡ true → (48 ≤ c) × (c ≤ 57) × (all_digits s ≡ true)
unfolding all_digits is_digit
all_digits-cons c s h = ground arith

-- 10 to the number of digits.
weight : Text → ℕ
weight [] = 1
weight (c ∷ s) = 10 * weight s

atoi_from-lt : (n k : ℕ) (s : Text) → all_digits s ≡ true → n < k → atoi_from n s < k * weight s
unfolding atoi_from weight
atoi_from-lt n k [] h p = omega arith
atoi_from-lt n k (c ∷ s) h p =
    let (lo, hi, rest) = all_digits-cons c s h in
    omega (arith, atoi_from-lt (n * 10 + (c - 48)) (k * 10) s rest (omega arith))

weight-le : (s : Text) → length s ≤ 5 → weight s ≤ 100000
unfolding weight
weight-le [] h = omega arith
weight-le (a ∷ []) h = omega arith
weight-le (a ∷ b ∷ []) h = omega arith
weight-le (a ∷ b ∷ c ∷ []) h = omega arith
weight-le (a ∷ b ∷ c ∷ d ∷ []) h = omega arith
weight-le (a ∷ b ∷ c ∷ d ∷ e ∷ []) h = omega arith
weight-le (a ∷ b ∷ c ∷ d ∷ e ∷ g ∷ s) h = absurd (omega arith)

is_short_number_parts :
    (s : Text) → is_short_number s ≡ true → (all_digits s ≡ true) × (length s ≤ 5)
unfolding is_short_number
is_short_number_parts s h = ground arith

atoi-lt : (s : Text) → is_short_number s ≡ true → atoi s < 100000
unfolding atoi
atoi-lt s h =
    let (digits, short) = is_short_number_parts s h in
    omega (arith, atoi_from-lt 0 1 s digits (omega arith), weight-le s short)

-- What holds of every label of the `switch` holds of a text that it matches.
is_one_of_elim :
    (P : Text → Type 0) (ns : List Text) (s : Text) → All P ns → is_one_of ns s ≡ true → P s
unfolding is_one_of
is_one_of_elim P [] s h e = absurd (ground arith)
is_one_of_elim P (n ∷ ns) s h e = elim (Bool-cases (n =ₜ s)) [
  | inl p ↦ subst P (=ₜ→eq n s p) h.0
  | inr p ↦ is_one_of_elim P ns s h.1 (rw p at e)
]

-- The labels that are numbers stand for 0.
head_office_number :
    (s : Text) → is_one_of head_office_names s ≡ true → is_short_number s ≡ true → atoi s ≡ 0
unfolding is_short_number all_digits is_digit atoi
head_office_number s =
    is_one_of_elim (λ s. is_short_number s ≡ true → atoi s ≡ 0) _ s
      (λ h. cc, (λ h. cc, (λ h. cc, (λ h. cc, (λ h. cc, (λ h. cc, (λ h. refl, (λ h. refl, tt))))))))

module _ (u : UnicodeCase) (tables : IsUnicode u) where
  upper-all_digits : (s : Text) → all_digits s ≡ true → map u.upper s ≡ s
  upper-all_digits [] h = refl
  upper-all_digits (c ∷ s) h =
      let (lo, hi, rest) = all_digits-cons c s h in
      ap₂ (λ a b. a ∷ b) (tables.upper-digit c lo hi) (upper-all_digits s rest)

  zero_of_head_office :
      (s : Text) → is_head_office u s ≡ true → is_short_number s ≡ true → atoi s ≡ 0
  unfolding is_head_office
  zero_of_head_office s e h =
      head_office_number s (rw (upper-all_digits s (is_short_number_parts s h).0) at e) h

  -- A code of one to five digits becomes its five-digit form, whether or not it is a label.
  pub normalize_number :
      (s : Text)
      → is_short_number (trim_space s) ≡ true
      → normalize_branch_code u s ≡ five_digits (atoi (trim_space s))
  unfolding normalize_branch_code
  normalize_number s h = elim (Bool-cases (is_head_office u (trim_space s))) [
    | inl e ↦ rw (e, zero_of_head_office (trim_space s) e h) (unfold five_digits in refl)
    | inr e ↦ rw (e, h)
  ]

  normalize-five_digits :
      (n : ℕ) → n < 100000 → normalize_branch_code u (five_digits n) ≡ five_digits n
  normalize-five_digits n h =
      normalize_number (five_digits n)
        (ap is_short_number (trim_space-five_digits n) ∙ five_digits-is_short_number n)
      ∙ ap (λ s. five_digits (atoi s)) (trim_space-five_digits n)
      ∙ ap five_digits (atoi-five_digits n h)

  -- Two codes of one to five digits are normalised to the same code exactly when they are the same
  -- number, so leading zeros and surrounding spaces make no difference and nothing else is lost.
  pub normalize_same_number :
      (s t : Text)
      → is_short_number (trim_space s) ≡ true
      → is_short_number (trim_space t) ≡ true
      → (normalize_branch_code u s ≡ normalize_branch_code u t)
        ↔ (atoi (trim_space s) ≡ atoi (trim_space t))
  normalize_same_number s t p q =
      rw (normalize_number s p, normalize_number t q)
        (
          λ e.
              sym (atoi-five_digits _ (atoi-lt (trim_space s) p))
              ∙ ap atoi e
              ∙ atoi-five_digits _ (atoi-lt (trim_space t) q),
          λ e. ap five_digits e,
        )

  normalize_head_office :
      (s : Text)
      → is_head_office u (trim_space s) ≡ true
      → normalize_branch_code u s ≡ five_digits 0
  unfolding normalize_branch_code five_digits
  normalize_head_office s e = rw e

  normalize_other :
      (s : Text)
      → is_head_office u (trim_space s) ≡ false
      → is_short_number (trim_space s) ≡ false
      → normalize_branch_code u s ≡ trim_space s
  unfolding normalize_branch_code
  normalize_other s e h = rw (e, h)

  -- Normalising a second time changes nothing.
  pub normalize-normalize :
      (s : Text) → normalize_branch_code u (normalize_branch_code u s) ≡ normalize_branch_code u s
  normalize-normalize s = elim (Bool-cases (is_short_number (trim_space s))) [
    | inl e ↦ rw (normalize_number s e) (normalize-five_digits _ (atoi-lt (trim_space s) e))
    | inr e ↦ elim (Bool-cases (is_head_office u (trim_space s))) [
      | inl h ↦ rw (normalize_head_office s h) (normalize-five_digits 0 (omega arith))
      | inr h ↦ rw (normalize_other s h e) (
          normalize_other (trim_space s) (rw trim_space-trim_space h) (rw trim_space-trim_space e)
          ∙ trim_space-trim_space s)
    ]
  ]
