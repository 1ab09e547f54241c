-- ===== src/Queue/Similarity/Laws.antt =====
-- What `stringSimilarity` computes.
use tax_ocr.Prelude.{
  ℕ, ◌-◌, ◌*◌, ◌^◌, ◌≤◌, ◌<◌, max, ◌≡◌, refl, sym, ap, ◌∙◌, ◌↔◌, ltb, ◌==◌, if◌then◌else◌, ◌&&◌,
  ◌||◌, Bool, Text, [], ◌∷◌, length, arith,
}
use tax_ocr.Float.{Float64, IsIeee}
use tax_ocr.GoStrings.{trim_space}
use tax_ocr.Queue.Similarity.{levenshtein, string_similarity}
use tax_ocr.Queue.Similarity.Script.{
  Script, edits, distance-le-edits, distance_attained, distance_comm, distance_self,
  distance_bounds, eq_of_distance,
}
use tax_ocr.Queue.Similarity.Rows.{onto, levenshtein-eq-distance, length-onto}

abbrev pub backwards : Text → Text
backwards a = onto a []

-- The table gives the least number of edits that turn one text into the other: no script, read
-- from the last rune to the first, has fewer, and one has as many.
pub levenshtein_least :
    (a b : Text)
    → ((s : Script (backwards a) (backwards b)) → levenshtein a b ≤ edits s)
      × ((s : Script (backwards a) (backwards b)) × (edits s ≡ levenshtein a b))
levenshtein_least a b =
    rw (levenshtein-eq-distance a b)
      (distance-le-edits, distance_attained (backwards a) (backwards b))

levenshtein_comm : (a b : Text) → levenshtein a b ≡ levenshtein b a
levenshtein_comm a b =
    levenshtein-eq-distance a b
    ∙ distance_comm (backwards a) (backwards b)
    ∙ sym (levenshtein-eq-distance b a)

levenshtein_self : (a : Text) → levenshtein a a ≡ 0
levenshtein_self a = levenshtein-eq-distance a a ∙ distance_self (backwards a)

onto-onto : (a p : Text) → onto (onto a p) [] ≡ onto p a
onto-onto [] p = refl
onto-onto (x ∷ a) p = onto-onto a (x ∷ p)

eq_of_levenshtein : (a b : Text) → levenshtein a b ≡ 0 → a ≡ b
eq_of_levenshtein a b h =
    sym (onto-onto a [])
    ∙ ap backwards
        (eq_of_distance (backwards a) (backwards b) (sym (levenshtein-eq-distance a b) ∙ h))
    ∙ onto-onto b []

levenshtein-le-max : (a b : Text) → levenshtein a b ≤ max (length a) (length b)
levenshtein-le-max a b = omega (
  arith,
  levenshtein-eq-distance a b,
  distance_bounds (backwards a) (backwards b),
  length-onto a [],
  length-onto b [],
)

-- The table gives a distance on texts: it is symmetric, it is 0 for equal texts and for no others,
-- and it is at most the length of the longer text and at least what the lengths differ by.
pub levenshtein_metric :
    (a b : Text)
    → (levenshtein a b ≡ levenshtein b a)
      × ((levenshtein a b ≡ 0) ↔ (a ≡ b))
      × (levenshtein a b ≤ max (length a) (length b))
      × (length a - length b ≤ levenshtein a b)
levenshtein_metric a b = (
  levenshtein_comm a b,
  (eq_of_levenshtein a b, λ e. rw (← e) (levenshtein_self a)),
  levenshtein-le-max a b,
  omega (
    arith,
    levenshtein-eq-distance a b,
    distance_bounds (backwards a) (backwards b),
    length-onto a [],
    length-onto b [],
  ),
)

-- The number of edits is more than 3 of 20 runes of the longer text.
abbrev pub differs : Text → Text → Bool
differs a b = ltb (3 * max (length a) (length b)) (20 * levenshtein a b)

module _ (f : Float64) where
  open f use {lit, of_int, sub, div, lt}

  -- The order of the two names does not matter.
  pub string_similarity_comm : (a b : Text) → string_similarity f a b ≡ string_similarity f b a
  unfolding string_similarity
  string_similarity_comm a b = rw (levenshtein_comm (trim_space a) (trim_space b)) (ground arith)

  -- The branches of `stringSimilarity` for texts of lengths `la` and `lb` at distance `d`.
  ratio_below :
      (ieee : IsIeee f) (la lb d : ℕ)
      → d ≤ max la lb
      → la - lb ≤ d
      → lb - la ≤ d
      → la < 2 ^ 40
      → lb < 2 ^ 40
      → lt
          (if la == 0 && lb == 0
            then lit 10 1
            else if la == 0 || lb == 0
            then lit 0 1
            else sub (lit 10 1) (div (of_int d) (of_int (if ltb la lb then lb else la))))
          (lit 85 2)
        ≡ ltb (3 * max la lb) (20 * d)
  ratio_below ieee la lb d p q r s t =
      ground (arith, ieee.zero-lt, ieee.one-lt, ieee.ratio-lt d (if ltb la lb then lb else la))

  -- A ratio below 0.85 means exactly that the trimmed texts differ in more than 3 of 20 runes of
  -- the longer one, for texts of fewer than 2^40 runes and a float64 that is one of IEEE 754.
  pub string_similarity-lt :
      (ieee : IsIeee f) (a b : Text)
      → length (trim_space a) < 2 ^ 40
      → length (trim_space b) < 2 ^ 40
      → lt (string_similarity f a b) (lit 85 2) ≡ differs (trim_space a) (trim_space b)
  unfolding string_similarity
  string_similarity-lt ieee a b p q =
      let ra = trim_space a in
      let rb = trim_space b in
      ratio_below ieee (length ra) (length rb) (levenshtein ra rb) (levenshtein-le-max ra rb)
        (levenshtein_metric ra rb).3
        (omega (arith, (levenshtein_metric rb ra).3, levenshtein_comm ra rb)) p q
