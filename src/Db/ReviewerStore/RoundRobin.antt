-- ===== src/Db/ReviewerStore/RoundRobin.antt =====
-- Whom `NextReviewerRoundRobin` chooses.
use tax_ocr.Prelude.{
  ℕ, ◌≤◌, String, ◌≡◌, refl, ◌⊎◌, inl, inr, Bool, true, false, Option, none, some, List, [], ◌∷◌,
  arith, Bool-cases, All, All-mono, leb, leb→le, subst,
}
use tax_ocr.Db.Types.{Reviewer}
use tax_ocr.Db.Monad.{ok, err, not_found, Tables, Store}
use tax_ocr.Db.Monad.Returns.{statement_ok, statement_err}
use tax_ocr.Db.ReviewerStore.{
  least, earlier, is_available, last_sent, next_reviewer_round_robin, row_or_not_found,
}

-- The reviewer is a row of the table.
abbrev pub Among : Reviewer → List Reviewer → Type 0
Among r [] = ⊥
Among r (x ∷ xs) = (r ≡ x) ⊎ Among r xs

-- `r` is eligible, and no eligible row ranks below it.
pub record IsLeast (eligible : Reviewer → Bool) (rank : Reviewer → ℕ) (rs : List Reviewer)
    (r : Reviewer) : Type 0 where
  pub among : Among r rs
  pub is_eligible : eligible r ≡ true
  pub below : All (λ x. eligible x ≡ true → rank r ≤ rank x) rs

module _ (eligible : Reviewer → Bool) (rank : Reviewer → ℕ) where
  abbrev Chosen : List Reviewer → Option Reviewer → Type 0
  Chosen rs none = All (λ x. eligible x ≡ false) rs
  Chosen rs (some r) = IsLeast eligible rank rs r

  earlier-IsLeast :
      (x : Reviewer) (xs : List Reviewer) (best : Option Reviewer)
      → eligible x ≡ true
      → Chosen xs best
      → IsLeast eligible rank (x ∷ xs) (earlier rank x best)
  unfolding earlier
  earlier-IsLeast x xs none e h = record {
    among = inl refl;
    is_eligible = e;
    below = (
      λ p. omega arith,
      All-mono (λ y. eligible y ≡ false) (λ y. eligible y ≡ true → rank x ≤ rank y) xs
          (λ y q p. absurd (ground arith)) h,
    );
  }
  earlier-IsLeast x xs (some r) e h = elim (Bool-cases (leb (rank x) (rank r))) [
    | inl p ↦ rw p (record {
      among = inl refl;
      is_eligible = e;
      below = (
        λ q. omega arith,
        All-mono (λ y. eligible y ≡ true → rank r ≤ rank y)
            (λ y. eligible y ≡ true → rank x ≤ rank y) xs
            (λ y k q. omega (arith, k q, leb→le (rank x) (rank r) p)) h.below,
      );
    })
    | inr p ↦ rw p (record {
      among = inr h.among;
      is_eligible = h.is_eligible;
      below = (λ q. ground arith, h.below);
    })
  ]

  least-Chosen : (rs : List Reviewer) → Chosen rs (least eligible rank rs)
  unfolding least
  least-Chosen [] = tt
  least-Chosen (x ∷ xs) = elim (Bool-cases (eligible x)) [
    | inl e ↦ rw e (earlier-IsLeast x xs (least eligible rank xs) e (least-Chosen xs))
    | inr e ↦ rw e (skipped (least eligible rank xs) e (least-Chosen xs))
  ]
    where
      skipped :
          (best : Option Reviewer) → eligible x ≡ false → Chosen xs best → Chosen (x ∷ xs) best
      skipped none e h = (e, h)
      skipped (some r) e h = record {
        among = inr h.among;
        is_eligible = h.is_eligible;
        below = (λ q. absurd (ground arith), h.below);
      }

row_or_not_found_ok :
    (o : Option Reviewer) (t t' : Tables) (r : Reviewer)
    → row_or_not_found o t ≡ ok (r, t')
    → o ≡ some r
row_or_not_found_ok none t t' r e = cc
row_or_not_found_ok (some x) t t' r e = ground arith

row_or_not_found_err :
    (o : Option Reviewer) (t : Tables) → row_or_not_found o t ≡ err not_found → o ≡ none
row_or_not_found_err none t e = refl
row_or_not_found_err (some x) t e = cc

-- The reviewer that is returned is one of the table, is active and of the type that was asked for,
-- and no other such reviewer was last sent a task earlier; ErrNotFound is returned only where the
-- table has no such reviewer.
pub next_reviewer_round_robin_lem :
    (reviewer_type : String) (s : Store)
    → ((r : Reviewer)
        → (next_reviewer_round_robin reviewer_type s).0 ≡ ok r
        → IsLeast
            (is_available reviewer_type)
            (λ x. last_sent s.tables.reviewer_tasks x.id)
            s.tables.reviewers
            r)
      × ((next_reviewer_round_robin reviewer_type s).0 ≡ err not_found
          → All (λ x. is_available reviewer_type x ≡ false) s.tables.reviewers)
unfolding next_reviewer_round_robin
next_reviewer_round_robin_lem reviewer_type s =
    let eligible = is_available reviewer_type in
    let rank = λ (x : Reviewer). last_sent s.tables.reviewer_tasks x.id in
    let chosen = least-Chosen eligible rank s.tables.reviewers in
    (
      λ r e.
          subst (Chosen eligible rank s.tables.reviewers)
            (row_or_not_found_ok (least eligible rank s.tables.reviewers) _ _ r
              (statement_ok _ s r e))
            chosen,
      λ e.
          subst (Chosen eligible rank s.tables.reviewers)
            (row_or_not_found_err (least eligible rank s.tables.reviewers) _
              (statement_err _ s not_found (λ p. cc p) e))
            chosen,
    )
