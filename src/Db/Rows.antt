-- ===== src/Db/Rows.antt =====
-- Tables as lists of rows with a primary key, and the statements on one row. An id is the key of at
-- most one row, so a statement `WHERE id = $1` stops at the first row that has it.
use tax_ocr.Prelude.{
  String, ◌=ₛ◌, Bool, true, false, ◌||◌, All, Bool-cases, inl, inr, subst, if◌then◌else◌, Option,
  none, some, List, [], ◌∷◌, ◌++◌, ◌≡◌, ◌≢◌, refl, eq_iff, arith,
}
use mathlib.Core.Option.{some-injective}

pub record Keyed (A : Type 0) : Type 0 where
  pub key : A → String

module _ {A : Type 0} where
  -- EXISTS (SELECT … WHERE p)
  unfoldable pub exists : (A → Bool) → List A → Bool
  exists p [] = false
  exists p (x ∷ xs) = let rest = exists p xs in p x || rest

  -- The table after DELETE … WHERE p.
  unfoldable pub delete_rows : (A → Bool) → List A → List A
  delete_rows p [] = []
  delete_rows p (x ∷ xs) = let rest = delete_rows p xs in if p x then rest else x ∷ rest

  pub exists-delete_rows :
      (q p : A → Bool) (xs : List A) → exists q xs ≡ false → exists q (delete_rows p xs) ≡ false
  unfolding exists delete_rows
  exists-delete_rows q p [] h = h
  exists-delete_rows q p (x ∷ xs) h = ground (arith, exists-delete_rows q p xs)

  pub All-delete_rows :
      (P : A → Type 0) (p : A → Bool) (xs : List A) → All P xs → All P (delete_rows p xs)
  unfolding delete_rows
  All-delete_rows P p [] h = tt
  All-delete_rows P p (x ∷ xs) h = elim (Bool-cases (p x)) [
    | inl e ↦ rw e (All-delete_rows P p xs h.1)
    | inr e ↦ rw e (h.0, All-delete_rows P p xs h.1)
  ]

module _ {A : Type 0} ⦃k : Keyed A⦄ where
  -- SELECT … WHERE id = $1
  unfoldable pub find : String → List A → Option A
  find id [] = none
  find id (x ∷ xs) = if k.key x =ₛ id then some x else find id xs

  -- The table after UPDATE … SET … WHERE id = $1 AND guard.
  unfoldable pub set_row : String → (A → Bool) → (A → A) → List A → List A
  set_row id guard f [] = []
  set_row id guard f (x ∷ xs) =
      let rest = set_row id guard f xs in
      if k.key x =ₛ id then (if guard x then f x else x) ∷ xs else x ∷ rest

  returning : (A → Bool) → (A → A) → Option A → List A → Option (A × List A)
  returning guard f none ys = none
  returning guard f (some x) ys = if guard x then some (f x, ys) else none

  -- The same with RETURNING: the row as it is now, and the table; `none` if no row was changed.
  unfoldable pub update_row : String → (A → Bool) → (A → A) → List A → Option (A × List A)
  unfolding returning
  update_row id guard f xs = returning guard f (find id xs) (set_row id guard f xs)

  -- UPDATE … WHERE guard RETURNING …: the rows that were changed, and the table.
  unfoldable pub update_rows : (A → Bool) → (A → A) → List A → List A × List A
  update_rows guard f [] = ([], [])
  update_rows guard f (x ∷ xs) =
      let (changed, ys) = update_rows guard f xs in
      if guard x then (f x ∷ changed, f x ∷ ys) else (changed, x ∷ ys)

  -- A row that is found stays found behind an inserted one.
  pub find-append :
      (id : String) (xs ys : List A) (x : A) → find id xs ≡ some x → find id (xs ++ ys) ≡ some x
  unfolding find
  find-append id [] ys x h = cc
  find-append id (y ∷ xs) ys x h = ground (arith, find-append id xs ys x)

  -- The row that an update leaves behind.
  abbrev pub altered : (A → Bool) → (A → A) → Option A → Option A
  altered guard f none = none
  altered guard f (some x) = some (if guard x then f x else x)

  pub find-set_row :
      (id j : String) (guard : A → Bool) (f : A → A) (xs : List A)
      → ((z : A) → k.key (f z) ≡ k.key z)
      → find j (set_row id guard f xs)
        ≡ (if id =ₛ j then altered guard f (find j xs) else find j xs)
  unfolding find set_row
  find-set_row id j guard f [] same = ground arith
  find-set_row id j guard f (z ∷ xs) same = ground (
    arith,
    eq_iff id j,
    eq_iff (k.key z) id,
    eq_iff (k.key z) j,
    eq_iff (k.key (f z)) j,
    same z,
    find-set_row id j guard f xs same,
  )

  pub find-update_rows :
      (j : String) (guard : A → Bool) (f : A → A) (xs : List A)
      → ((z : A) → k.key (f z) ≡ k.key z)
      → find j (update_rows guard f xs).1 ≡ altered guard f (find j xs)
  unfolding find update_rows
  find-update_rows j guard f [] same = refl
  find-update_rows j guard f (z ∷ xs) same =
      ground (arith, same z, find-update_rows j guard f xs same)

  -- What it means that an update has changed a row.
  returning_changed :
      (guard : A → Bool) (f : A → A) (found : Option A) (table : List A) (y : A) (ys : List A)
      → returning guard f found table ≡ some (y, ys)
      → (x : A) × (found ≡ some x) × (guard x ≡ true) × (y ≡ f x) × (ys ≡ table)
  unfolding returning
  returning_changed guard f none table y ys e = cc
  returning_changed guard f (some x) table y ys e =
      (x, refl, ground arith, ground arith, ground arith)

  pub update_row_changed :
      (id : String) (guard : A → Bool) (f : A → A) (xs : List A) (y : A) (ys : List A)
      → update_row id guard f xs ≡ some (y, ys)
      → (x : A) × (find id xs ≡ some x)
        × (guard x ≡ true)
        × (y ≡ f x)
        × (ys ≡ set_row id guard f xs)
  unfolding update_row
  update_row_changed id guard f xs y ys e =
      returning_changed guard f (find id xs) (set_row id guard f xs) y ys e

  returning_missing :
      (f : A → A) (found : Option A) (table : List A)
      → returning (λ x. true) f found table ≡ none
      → found ≡ none
  unfolding returning
  returning_missing f none table e = refl
  returning_missing f (some x) table e = cc

  -- An UPDATE without a guard changes no row only if there is none.
  pub update_row_missing :
      (id : String) (f : A → A) (xs : List A)
      → update_row id (λ x. true) f xs ≡ none
      → find id xs ≡ none
  unfolding update_row
  update_row_missing id f xs e = returning_missing f (find id xs) (set_row id (λ x. true) f xs) e

  -- The row that an UPDATE answers is then found, and every other row is as it was.
  pub update_row_found :
      (id : String) (guard : A → Bool) (f : A → A) (xs : List A) (y : A) (ys : List A)
      → ((z : A) → k.key (f z) ≡ k.key z)
      → update_row id guard f xs ≡ some (y, ys)
      → (find id ys ≡ some y) × ((j : String) → (id =ₛ j) ≢ true → find j ys ≡ find j xs)
  update_row_found id guard f xs y ys same e =
      let (x, found, p, is, table) = update_row_changed id guard f xs y ys e in
      (
        rw (table, find-set_row id id guard f xs same, found) (ground (arith, eq_iff id id, p, is)),
        λ j differ. rw (table, find-set_row id j guard f xs same) (ground (arith, differ)),
      )

  pub All-set_row :
      (P : A → Type 0) (id : String) (guard : A → Bool) (f : A → A) (xs : List A)
      → ((x : A) → P x → P (f x))
      → All P xs
      → All P (set_row id guard f xs)
  unfolding set_row
  All-set_row P id guard f [] keep h = tt
  All-set_row P id guard f (x ∷ xs) keep h = elim (Bool-cases (k.key x =ₛ id)) [
    | inl e ↦ rw e (elim (Bool-cases (guard x)) [ inl g ↦ rw g (keep x h.0, h.1) | inr g ↦ rw g h ])
    | inr e ↦ rw e (h.0, All-set_row P id guard f xs keep h.1)
  ]

  pub All-update_rows :
      (P : A → Type 0) (guard : A → Bool) (f : A → A) (xs : List A)
      → ((x : A) → P x → P (f x))
      → All P xs
      → All P (update_rows guard f xs).1
  unfolding update_rows
  All-update_rows P guard f [] keep h = tt
  All-update_rows P guard f (x ∷ xs) keep h = elim (Bool-cases (guard x)) [
    | inl g ↦ rw g (keep x h.0, All-update_rows P guard f xs keep h.1)
    | inr g ↦ rw g (h.0, All-update_rows P guard f xs keep h.1)
  ]

  pub All-find :
      (P : A → Type 0) (id : String) (xs : List A) (x : A) → All P xs → find id xs ≡ some x → P x
  unfolding find
  All-find P id [] x h e = absurd (ground arith)
  All-find P id (y ∷ xs) x h e = elim (Bool-cases (k.key y =ₛ id)) [
    | inl p ↦ subst P (some-injective y x (rw p at e)) h.0
    | inr p ↦ All-find P id xs x h.1 (rw p at e)
  ]
