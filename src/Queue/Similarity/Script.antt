-- ===== src/Queue/Similarity/Script.antt =====
-- Edit scripts, and the least number of edits between two texts: what the table is to compute.
use native.Mathlib.Decide.{dec_le}
use tax_ocr.Prelude.{ℕ, suc, ◌+◌, ◌-◌, ◌≤◌, ◌≡◌, refl, Text, [], ◌∷◌, length, arith, min, max, ap₂}
use tax_ocr.Queue.Similarity.{min3, cost}

pub min3-eq-min : (a b c : ℕ) → min3 a b c ≡ min (min a b) c
unfolding min3
min3-eq-min a b c = ground arith

cost_self : (x : ℕ) → cost x x ≡ 0
unfolding cost
cost_self x = ground arith

cost_comm : (x y : ℕ) → cost x y ≡ cost y x
unfolding cost
cost_comm x y = ground arith

cost-le-one : (x y : ℕ) → cost x y ≤ 1
unfolding cost
cost-le-one x y = ground arith

eq_of_cost : (x y : ℕ) → cost x y ≡ 0 → x ≡ y
unfolding cost
eq_of_cost x y h = ground arith

-- A way to turn the first text into the second.
pub data Script : Text → Text → Type 0 where
  done : Script [] []
  delete : {x : ℕ} {a b : Text} → Script a b → Script (x ∷ a) b
  insert : {y : ℕ} {a b : Text} → Script a b → Script a (y ∷ b)
  keep_or_replace : {x y : ℕ} {a b : Text} → Script a b → Script (x ∷ a) (y ∷ b)

-- The number of its edits; keeping a rune is none.
pub edits : {a b : Text} → Script a b → ℕ
edits done = 0
edits (delete s) = suc (edits s)
edits (insert s) = suc (edits s)
edits (keep_or_replace {x} {y} s) = edits s + cost x y

-- The least number of edits, by recursion on the two texts.
unfoldable pub distance : Text → Text → ℕ
distance [] b = length b
distance (x ∷ a) [] = suc (length a)
distance (x ∷ a) (y ∷ b) =
    min (min (distance (x ∷ a) b + 1) (distance a (y ∷ b) + 1)) (distance a b + cost x y)

distance-nil : (a : Text) → distance a [] ≡ length a
unfolding distance
distance-nil [] = refl
distance-nil (x ∷ a) = refl

pub distance-le-edits : {a b : Text} (s : Script a b) → distance a b ≤ edits s
unfolding distance edits
distance-le-edits done = omega arith
distance-le-edits (delete {a} {b = []} s) = omega (arith, distance-le-edits s, distance-nil a)
distance-le-edits (delete {b = y ∷ b} s) = omega (arith, distance-le-edits s)
distance-le-edits (insert {a = []} s) = omega (arith, distance-le-edits s)
distance-le-edits (insert {a = x ∷ a} s) = omega (arith, distance-le-edits s)
distance-le-edits (keep_or_replace s) = omega (arith, distance-le-edits s)

-- A script with a given number of edits.
abbrev Costs : Text → Text → ℕ → Type 0
Costs a b n = (s : Script a b) × (edits s ≡ n)

Costs-min : {a b : Text} {m n : ℕ} → Costs a b m → Costs a b n → Costs a b (min m n)
Costs-min {m} {n} s t = elim (dec_le m n) [ yes h ↦ (s.0, omega arith) | no h ↦ (t.0, omega arith) ]

pub distance_attained : (a b : Text) → (s : Script a b) × (edits s ≡ distance a b)
unfolding distance edits
distance_attained [] [] = (done, refl)
distance_attained [] (y ∷ b) = let (s, e) = distance_attained [] b in (insert s, omega arith)
distance_attained (x ∷ a) [] =
    let (s, e) = distance_attained a [] in (delete s, omega (arith, distance-nil a))
distance_attained (x ∷ a) (y ∷ b) =
    let (s, e) = distance_attained (x ∷ a) b in
    let (t, u) = distance_attained a (y ∷ b) in
    let (v, w) = distance_attained a b in
    Costs-min (Costs-min (insert s, omega arith) (delete t, omega arith))
      (keep_or_replace v, omega arith)

pub distance_comm : (a b : Text) → distance a b ≡ distance b a
unfolding distance
distance_comm [] b = omega (arith, distance-nil b)
distance_comm (x ∷ a) [] = refl
distance_comm (x ∷ a) (y ∷ b) =
    rw (cost_comm x y)
      (omega (arith, distance_comm (x ∷ a) b, distance_comm a (y ∷ b), distance_comm a b))

pub distance_self : (a : Text) → distance a a ≡ 0
unfolding distance
distance_self [] = refl
distance_self (x ∷ a) = rw (distance_self a, cost_self) (omega arith)

pub distance_bounds :
    (a b : Text) → (length a - length b ≤ distance a b) × (distance a b ≤ max (length a) (length b))
unfolding distance
distance_bounds [] b = omega arith
distance_bounds (x ∷ a) [] = omega arith
distance_bounds (x ∷ a) (y ∷ b) =
    omega (
      arith,
      cost-le-one,
      distance_bounds (x ∷ a) b,
      distance_bounds a (y ∷ b),
      distance_bounds a b,
    )

pub eq_of_distance : (a b : Text) → distance a b ≡ 0 → a ≡ b
unfolding distance
eq_of_distance [] [] h = refl
eq_of_distance [] (y ∷ b) h = absurd (omega arith)
eq_of_distance (x ∷ a) [] h = absurd (omega arith)
eq_of_distance (x ∷ a) (y ∷ b) h =
    ap₂ (λ u v. u ∷ v) (eq_of_cost x y (omega arith)) (eq_of_distance a b (omega arith))
