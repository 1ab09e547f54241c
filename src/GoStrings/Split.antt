-- ===== src/GoStrings/Split.antt =====
-- The functions of `strings` that take a text apart at a rune, and `len`.
use tax_ocr.Prelude.{
  ℕ, ◌+◌, ◌==◌, ==_refl, ltb, if◌then◌else◌, Bool, true, false, Text, List, [], ◌∷◌, ◌++◌, ◌≡◌,
  refl, sym, ap, ◌∙◌, All, arith, is_empty,
}
use tax_ocr.GoStrings.{has_prefix}

drop_as_long : Text → Text → Text
drop_as_long s [] = s
drop_as_long [] (p ∷ ps) = []
drop_as_long (c ∷ s) (p ∷ ps) = drop_as_long s ps

-- strings.TrimPrefix
unfoldable pub trim_prefix : Text → Text → Text
unfolding drop_as_long
trim_prefix s p = if has_prefix s p then drop_as_long s p else s

trim_start : ℕ → Text → Text
trim_start sep [] = []
trim_start sep (c ∷ s) = if c == sep then trim_start sep s else c ∷ s

trim_end : ℕ → Text → Text
trim_end sep [] = []
trim_end sep (c ∷ s) =
    let r = trim_end sep s in if is_empty r then (if c == sep then [] else c ∷ []) else c ∷ r

-- strings.Trim with a cutset of one rune
unfoldable pub trim_both : ℕ → Text → Text
unfolding trim_start trim_end
trim_both sep s = trim_end sep (trim_start sep s)

onto_first : ℕ → List Text → List Text
onto_first c [] = (c ∷ []) ∷ []
onto_first c (s ∷ ss) = (c ∷ s) ∷ ss

-- strings.Split at a separator of one rune: one part more than there are separators
unfoldable pub split : ℕ → Text → List Text
unfolding onto_first
split sep [] = [] ∷ []
split sep (c ∷ s) = let parts = split sep s in if c == sep then [] ∷ parts else onto_first c parts

-- strings.SplitN(s, sep, 2)[0]
unfoldable pub first_part : ℕ → Text → Text
first_part sep [] = []
first_part sep (c ∷ s) = let rest = first_part sep s in if c == sep then [] else c ∷ rest

has_rune : ℕ → Text → Bool
has_rune sep [] = false
has_rune sep (c ∷ s) = let rest = has_rune sep s in if c == sep then true else rest

-- `idx := strings.LastIndex(s, sep)`, and s[:idx], or s where idx is -1
unfoldable pub before_last : ℕ → Text → Text
unfolding has_rune
before_last sep [] = []
before_last sep (c ∷ s) =
    let rest = before_last sep s in
    if has_rune sep s then c ∷ rest else (if c == sep then [] else c ∷ rest)

-- The bytes of a rune in UTF-8.
utf8_length : ℕ → ℕ
utf8_length c = if ltb c 0x80 then 1 else if ltb c 0x800 then 2 else if ltb c 0x10000 then 3 else 4

-- len
unfoldable pub byte_length : Text → ℕ
unfolding utf8_length
byte_length [] = 0
byte_length (c ∷ s) = utf8_length c + byte_length s

-- The separator does not occur in the text.
abbrev pub IsWhole : ℕ → Text → Type 0
IsWhole sep s = All (λ c. (c == sep) ≡ false) s

-- Two parts with the separator between them are split there.
pub split-join : (sep : ℕ) (s t : Text) → IsWhole sep s → split sep (s ++ sep ∷ t) ≡ s ∷ split sep t
unfolding split onto_first
split-join sep [] t h = rw (==_refl sep) refl
split-join sep (c ∷ s) t h = rw (h.0, split-join sep s t h.1) refl

pub split_whole : (sep : ℕ) (s : Text) → IsWhole sep s → split sep s ≡ s ∷ []
unfolding split onto_first
split_whole sep [] h = refl
split_whole sep (c ∷ s) h = rw (h.0, split_whole sep s h.1) refl

has_rune-join : (sep : ℕ) (s t : Text) → has_rune sep (s ++ sep ∷ t) ≡ true
unfolding has_rune
has_rune-join sep [] t = rw (==_refl sep) refl
has_rune-join sep (c ∷ s) t = rw (has_rune-join sep s t) (ground arith)

has_rune_whole : (sep : ℕ) (s : Text) → IsWhole sep s → has_rune sep s ≡ false
unfolding has_rune
has_rune_whole sep [] h = refl
has_rune_whole sep (c ∷ s) h = rw (h.0, has_rune_whole sep s h.1) refl

-- What stands before the last separator.
pub before_last-join : (sep : ℕ) (s t : Text) → IsWhole sep t → before_last sep (s ++ sep ∷ t) ≡ s
unfolding before_last
before_last-join sep [] t h = rw (has_rune_whole sep t h, ==_refl sep) refl
before_last-join sep (c ∷ s) t h = rw (has_rune-join sep s t, before_last-join sep s t h) refl

has_prefix-append : (p s : Text) → has_prefix (p ++ s) p ≡ true
unfolding has_prefix
has_prefix-append [] s = refl
has_prefix-append (c ∷ p) s = rw (==_refl c) (has_prefix-append p s)

drop_as_long-append : (p s : Text) → drop_as_long (p ++ s) p ≡ s
unfolding drop_as_long
drop_as_long-append [] s = refl
drop_as_long-append (c ∷ p) s = drop_as_long-append p s

append_assoc : (s t v : Text) → s ++ (t ++ v) ≡ (s ++ t) ++ v
append_assoc [] t v = refl
append_assoc (c ∷ s) t v = ap (λ x. c ∷ x) (append_assoc s t v)

-- A prefix that is there is taken off.
pub trim_prefix-append : (p s : Text) → trim_prefix (p ++ s) p ≡ s
unfolding trim_prefix
trim_prefix-append p s = rw (has_prefix-append p s) (drop_as_long-append p s)

trim_end_whole : (sep : ℕ) (s : Text) → IsWhole sep s → trim_end sep s ≡ s
unfolding trim_end is_empty
trim_end_whole sep [] h = refl
trim_end_whole sep (c ∷ []) h = rw h.0 refl
trim_end_whole sep (c ∷ d ∷ s) h = rw (trim_end_whole sep (d ∷ s) h.1) refl

is_empty-join : (s t : Text) (c : ℕ) → is_empty (s ++ c ∷ t) ≡ false
unfolding is_empty
is_empty-join [] t c = refl
is_empty-join (d ∷ s) t c = refl

trim_end-join :
    (sep : ℕ) (s t : Text)
    → IsWhole sep t
    → is_empty t ≡ false
    → trim_end sep (s ++ sep ∷ t) ≡ s ++ sep ∷ t
unfolding trim_end
trim_end-join sep [] t h k = rw (trim_end_whole sep t h, k) refl
trim_end-join sep (c ∷ s) t h k = rw (trim_end-join sep s t h k, is_empty-join s t sep) refl

-- Nothing is trimmed where neither end is the separator.
pub trim_both-join :
    (sep : ℕ) (s t : Text)
    → IsWhole sep t
    → is_empty t ≡ false
    → (c : ℕ) (rest : Text) → s ++ sep ∷ t ≡ c ∷ rest
    → (c == sep) ≡ false
    → trim_both sep (s ++ sep ∷ t) ≡ s ++ sep ∷ t
unfolding trim_both trim_start
trim_both-join sep s t h k c rest e first =
    ap (trim_end sep) (rw (e, first) refl) ∙ trim_end-join sep s t h k

pub trim_both-join_two :
    (sep : ℕ) (s t v : Text)
    → IsWhole sep v
    → is_empty v ≡ false
    → (c : ℕ) (rest : Text) → s ≡ c ∷ rest
    → (c == sep) ≡ false
    → trim_both sep (s ++ (sep ∷ (t ++ (sep ∷ v)))) ≡ s ++ (sep ∷ (t ++ (sep ∷ v)))
trim_both-join_two sep s t v h k c rest e first =
    let regroup = append_assoc s (sep ∷ t) (sep ∷ v) in
    ap (trim_both sep) regroup
    ∙ trim_both-join sep (s ++ (sep ∷ t)) v h k c (rest ++ (sep ∷ t) ++ (sep ∷ v)) (rw e refl) first
    ∙ sym regroup
