-- ===== src/GoStrings/Trim.antt =====
-- strings.TrimSpace leaves no space at either end, and so it changes nothing the second time.
use tax_ocr.Prelude.{
  ◌≡◌, refl, false, ◌&&◌, Text, [], ◌∷◌, is_empty, arith, Bool-cases, inl, inr, ap, ◌∙◌, All, ◌+◌,
  ◌<◌, ℕ,
}
use tax_ocr.GoStrings.{is_space, trim_left, trim_right, trim_space}

-- The text is empty or begins with a rune that is no space.
abbrev StartsBare : Text → Type 0
StartsBare [] = Unit
StartsBare (c ∷ s) = is_space c ≡ false

trim_left-StartsBare : (s : Text) → StartsBare (trim_left s)
unfolding trim_left
trim_left-StartsBare [] = tt
trim_left-StartsBare (c ∷ s) = elim (Bool-cases (is_space c)) [
  | inl e ↦ rw e (trim_left-StartsBare s)
  | inr e ↦ rw e e
]

trim_left_bare : (s : Text) → StartsBare s → trim_left s ≡ s
unfolding trim_left
trim_left_bare [] h = refl
trim_left_bare (c ∷ s) h = rw h

trim_right-StartsBare : (s : Text) → StartsBare s → StartsBare (trim_right s)
unfolding trim_right
trim_right-StartsBare [] h = tt
trim_right-StartsBare (c ∷ s) h = elim (Bool-cases (is_empty (trim_right s))) [
  | inl e ↦ rw (e, h) h
  | inr e ↦ rw e h
]

trim_right-trim_right : (s : Text) → trim_right (trim_right s) ≡ trim_right s
unfolding trim_right
trim_right-trim_right [] = refl
trim_right-trim_right (c ∷ s) = elim (Bool-cases (is_empty (trim_right s) && is_space c)) [
  | inl e ↦ rw e
  | inr e ↦ rw (e, trim_right-trim_right s) (rw e)
]

pub trim_space-trim_space : (s : Text) → trim_space (trim_space s) ≡ trim_space s
unfolding trim_space
trim_space-trim_space s =
    ap trim_right (
      trim_left_bare (trim_right (trim_left s))
        (trim_right-StartsBare (trim_left s) (trim_left-StartsBare s)))
    ∙ trim_right-trim_right (trim_left s)

trim_right_bare : (s : Text) → All (λ c. is_space c ≡ false) s → trim_right s ≡ s
unfolding trim_right is_empty
trim_right_bare [] h = refl
trim_right_bare (c ∷ s) h = rw (trim_right_bare s h.1, h.0) (ground arith)

pub is_space-digit : (n : ℕ) → n < 10 → is_space (48 + n) ≡ false
unfolding is_space
is_space-digit n h = ground arith

-- A text with no space in it is left as it is.
pub trim_space_bare : (s : Text) → All (λ c. is_space c ≡ false) s → trim_space s ≡ s
unfolding trim_space
trim_space_bare s h = ap trim_right (trim_left_bare s (first s h)) ∙ trim_right_bare s h
  where
    first : (s : Text) → All (λ c. is_space c ≡ false) s → StartsBare s
    first [] h = tt
    first (c ∷ s) h = h.0
