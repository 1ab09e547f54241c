-- ===== src/Db/Migrate/Sorting.antt =====
-- The files are run in the order of their names.
use tax_ocr.Prelude.{
  ◌≡◌, refl, true, false, Text, All, All-mono, List, [], ◌∷◌, Bool-cases, inl, inr, arith,
}
use tax_ocr.Db.Migrate.{at_most, insert, sorted}

-- Each name is at most those that come after it.
abbrev pub InOrder : List Text → Type 0
InOrder [] = Unit
InOrder (x ∷ xs) = All (λ y. at_most x y ≡ true) xs × InOrder xs

at_most_total : (s t : Text) → at_most s t ≡ false → at_most t s ≡ true
unfolding at_most
at_most_total [] t h = cc
at_most_total (x ∷ s) [] h = refl
at_most_total (x ∷ s) (y ∷ t) h = ground (arith, at_most_total s t)

at_most_trans : (r s t : Text) → at_most r s ≡ true → at_most s t ≡ true → at_most r t ≡ true
unfolding at_most
at_most_trans [] s t h k = refl
at_most_trans (x ∷ r) [] t h k = absurd (ground arith)
at_most_trans (x ∷ r) (y ∷ s) [] h k = absurd (ground arith)
at_most_trans (x ∷ r) (y ∷ s) (z ∷ t) h k = ground (arith, at_most_trans r s t)

All-insert : (P : Text → Type 0) (x : Text) (xs : List Text) → P x → All P xs → All P (insert x xs)
unfolding insert
All-insert P x [] p h = (p, tt)
All-insert P x (y ∷ ys) p h = elim (Bool-cases (at_most x y)) [
  | inl e ↦ rw e (p, h)
  | inr e ↦ rw e (h.0, All-insert P x ys p h.1)
]

pub All-sorted : (P : Text → Type 0) (xs : List Text) → All P xs → All P (sorted xs)
unfolding sorted
All-sorted P [] h = tt
All-sorted P (x ∷ xs) h = All-insert P x (sorted xs) h.0 (All-sorted P xs h.1)

insert-InOrder : (x : Text) (xs : List Text) → InOrder xs → InOrder (insert x xs)
unfolding insert
insert-InOrder x [] h = (tt, tt)
insert-InOrder x (y ∷ ys) h = elim (Bool-cases (at_most x y)) [
  | inl e ↦ rw e ((e, All-mono _ _ ys (λ z k. at_most_trans x y z e k) h.0), h)
  | inr e ↦
      rw e (
        All-insert (λ z. at_most y z ≡ true) x ys (at_most_total x y e) h.0,
        insert-InOrder x ys h.1,
      )
]

pub sorted-InOrder : (xs : List Text) → InOrder (sorted xs)
unfolding sorted
sorted-InOrder [] = tt
sorted-InOrder (x ∷ xs) = insert-InOrder x (sorted xs) (sorted-InOrder xs)
