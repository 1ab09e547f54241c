-- ===== src/Classify/Keywords/Laws.antt =====
-- What the built-in keywords decide.
use tax_ocr.Prelude.{
  false_true, ℕ, ◌==◌, ==_refl, &&-eq_true, ◌≡◌, ◌≢◌, refl, sym, ap, true, Bool-cases, inl, inr,
  ◌⊎◌, ◌↔◌, Option, none, some, String, Text, List, [], ◌∷◌, ◌++◌, eq_iff, map, runes, arith,
}
use tax_ocr.Float.{Float64}
use tax_ocr.GoStrings.{contains, has_prefix}
use tax_ocr.GoStrings.Case.{UnicodeCase}
use tax_ocr.Classify.Keywords.{
  asset_keywords, expense_keywords, mentions, first_mentioned, by_asset, by_expense,
  classify_by_keywords,
}

-- One of the keywords is mentioned.
unfoldable pub Mentioned : UnicodeCase → Text → List Text → Type 0
Mentioned u description [] = ⊥
Mentioned u description (kw ∷ kws) =
    (mentions u description kw ≡ true) ⊎ Mentioned u description kws

asset_expense : ◌≢◌ {A = String} "asset" "expense"
asset_expense e = false_true ((eq_iff "asset" "expense").1 e)

asset_pending : ◌≢◌ {A = String} "asset" "pending"
asset_pending e = false_true ((eq_iff "asset" "pending").1 e)

expense_pending : ◌≢◌ {A = String} "expense" "pending"
expense_pending e = false_true ((eq_iff "expense" "pending").1 e)

module _ (u : UnicodeCase) (description : Text) where
  first_mentioned-Mentioned :
      (kws : List Text) (kw : Text)
      → first_mentioned u description kws ≡ some kw
      → Mentioned u description kws
  unfolding first_mentioned Mentioned
  first_mentioned-Mentioned [] kw e = cc
  first_mentioned-Mentioned (x ∷ xs) kw e = elim (Bool-cases (mentions u description x)) [
    | inl p ↦ inl p
    | inr p ↦ inr (first_mentioned-Mentioned xs kw (rw p at e))
  ]

  none-Mentioned :
      (kws : List Text) → first_mentioned u description kws ≡ none → ¬ Mentioned u description kws
  unfolding first_mentioned Mentioned
  none-Mentioned [] e h = h
  none-Mentioned (x ∷ xs) e h = elim (Bool-cases (mentions u description x)) [
    | inl p ↦ absurd (ground arith)
    | inr p ↦ elim h [ inl q ↦ absurd (ground arith) | inr q ↦ none-Mentioned xs (rw p at e) q ]
  ]

  module _ (f : Float64) where
    -- A description is classified as an asset exactly if it mentions an asset keyword, as an
    -- expense exactly if it mentions an expense keyword and no asset keyword, and is left pending
    -- exactly if it mentions none of either.
    pub classify_by_keywords_lem :
        ((classify_by_keywords f u description).asset_type ≡ "asset"
          ↔ Mentioned u description asset_keywords)
        × ((classify_by_keywords f u description).asset_type ≡ "expense"
            ↔ (¬ Mentioned u description asset_keywords) × Mentioned u description expense_keywords)
        × ((classify_by_keywords f u description).asset_type ≡ "pending"
            ↔ (¬ Mentioned u description asset_keywords)
              × (¬ Mentioned u description expense_keywords))
    unfolding classify_by_keywords
    classify_by_keywords_lem =
        decided (first_mentioned u description asset_keywords)
          (first_mentioned u description expense_keywords)
          (λ kw. first_mentioned-Mentioned asset_keywords kw) (none-Mentioned asset_keywords)
          (λ kw. first_mentioned-Mentioned expense_keywords kw) (none-Mentioned expense_keywords)
      where
        decided :
            {P Q : Type 0} (o p : Option Text)
            → ((kw : Text) → o ≡ some kw → P)
            → (o ≡ none → ¬ P)
            → ((kw : Text) → p ≡ some kw → Q)
            → (p ≡ none → ¬ Q)
            → ((by_asset f o (by_expense f p)).asset_type ≡ "asset" ↔ P)
              × ((by_asset f o (by_expense f p)).asset_type ≡ "expense" ↔ (¬ P) × Q)
              × ((by_asset f o (by_expense f p)).asset_type ≡ "pending" ↔ (¬ P) × (¬ Q))
        decided (some x) p a b c d = (
          (λ e. a x refl, λ h. refl),
          (λ e. absurd (asset_expense e), λ h. absurd (h.0 (a x refl))),
          (λ e. absurd (asset_pending e), λ h. absurd (h.0 (a x refl))),
        )
        decided none (some y) a b c d = (
          (λ e. absurd (asset_expense (sym e)), λ h. absurd (b refl h)),
          (λ e. (b refl, c y refl), λ h. refl),
          (λ e. absurd (expense_pending e), λ h. absurd (h.1 (c y refl))),
        )
        decided none none a b c d = (
          (λ e. absurd (asset_pending (sym e)), λ h. absurd (b refl h)),
          (λ e. absurd (expense_pending (sym e)), λ h. absurd (d refl h.1)),
          (λ e. (b refl, d refl), λ h. refl),
        )

has_prefix_trans :
    (s w v : Text) → has_prefix s w ≡ true → has_prefix w v ≡ true → has_prefix s v ≡ true
unfolding has_prefix
has_prefix_trans s w [] h k = refl
has_prefix_trans s [] (c ∷ v) h k = absurd (ground arith)
has_prefix_trans [] (b ∷ w) (c ∷ v) h k = absurd (ground arith)
has_prefix_trans (a ∷ s) (b ∷ w) (c ∷ v) h k = ground (arith, has_prefix_trans s w v)

contains-prefix : (s w : Text) → has_prefix s w ≡ true → contains s w ≡ true
unfolding contains
contains-prefix [] w h = h
contains-prefix (c ∷ s) w h = rw h refl

contains_later : (c : ℕ) (s v : Text) → contains s v ≡ true → contains (c ∷ s) v ≡ true
unfolding contains
contains_later c s v h = ground (arith, h)

has_prefix-contains :
    (s w v : Text) → has_prefix s w ≡ true → contains w v ≡ true → contains s v ≡ true
unfolding contains has_prefix
has_prefix-contains s [] v h k = contains-prefix s v (has_prefix_trans s [] v h k)
has_prefix-contains [] (b ∷ w) v h k = absurd (ground arith)
has_prefix-contains (a ∷ s) (b ∷ w) v h k = elim (Bool-cases (has_prefix (b ∷ w) v)) [
  | inl p ↦ contains-prefix (a ∷ s) v (has_prefix_trans (a ∷ s) (b ∷ w) v h p)
  | inr p ↦
      contains_later a s v
        (has_prefix-contains s w v (&&-eq_true (a == b) (has_prefix s w) h).1 (rw p at k))
]

-- A text in a text that is in a text is in it.
contains_trans : (s w v : Text) → contains s w ≡ true → contains w v ≡ true → contains s v ≡ true
unfolding contains
contains_trans [] w v h k = has_prefix-contains [] w v h k
contains_trans (c ∷ s) w v h k = elim (Bool-cases (has_prefix (c ∷ s) w)) [
  | inl p ↦ has_prefix-contains (c ∷ s) w v p k
  | inr p ↦ contains_later c s v (contains_trans s w v (rw p at h) k)
]

has_prefix_refl : (w : Text) → has_prefix w w ≡ true
unfolding has_prefix
has_prefix_refl [] = refl
has_prefix_refl (c ∷ w) = rw (==_refl c, has_prefix_refl w) refl

contains_end : (v w : Text) → contains (v ++ w) w ≡ true
contains_end [] w = contains-prefix w w (has_prefix_refl w)
contains_end (c ∷ v) w = contains_later c (v ++ w) w (contains_end v w)

map-append : (g : ℕ → ℕ) (v w : Text) → map g (v ++ w) ≡ map g v ++ map g w
map-append g [] w = refl
map-append g (c ∷ v) w = ap (λ x. g c ∷ x) (map-append g v w)

-- A description that mentions a word mentions every keyword that the word ends in.
pub mentions_end :
    (u : UnicodeCase) (description v w : Text)
    → mentions u description (v ++ w) ≡ true
    → mentions u description w ≡ true
unfolding mentions
mentions_end u description v w h =
    contains_trans (map u.lower description) (map u.lower v ++ map u.lower w) (map u.lower w)
      (rw (map-append u.lower v w) at h) (contains_end (map u.lower v) (map u.lower w))

-- Every description that mentions a repair is classified as an asset, since the word ends in the
-- asset keyword 'air'.
pub repair_asset :
    (u : UnicodeCase) (f : Float64) (description : Text)
    → mentions u description (runes "repair") ≡ true
    → (classify_by_keywords f u description).asset_type ≡ "asset"
unfolding Mentioned
repair_asset u f description h =
    (classify_by_keywords_lem u description f).0.1
      (air_mentioned (mentions_end u description (runes "rep") (runes "air") h))
  where
    air_mentioned :
        mentions u description (runes "air") ≡ true → Mentioned u description asset_keywords
    air_mentioned k = ground arith
