-- ===== src/Reviewer/History/Deletions.antt =====
-- What holds after any history, with the deletions that take completed tasks along.
use tax_ocr.Prelude.{
  ℕ, ◌+◌, ◌-◌, ◌≤◌, String, ◌≡◌, refl, Bool, false, Bool-cases, inl, inr, List, [], ◌∷◌, arith,
}
use tax_ocr.Db.Types.{ReviewerTask}
use tax_ocr.Db.Rows.{delete_rows, All-delete_rows}
use tax_ocr.Db.Monad.{Tables, Store, Db}
use tax_ocr.Db.Monad.Keeps.{Keeps}
use tax_ocr.Db.InvoiceStore.Delete.Laws.{delete_invoice_items_changed, delete_invoice_changed}
use tax_ocr.Db.ReviewerStore.Books.{BooksBalance, earned, pending, completed_rewards, IsEmployed}
use tax_ocr.Reviewer.History.{Action, clear_items, remove_invoice, act, run, deletes_nothing}
use tax_ocr.Reviewer.History.Laws.{
  IsNew, Keeps-ignored, act-keeps, BooksBalance-kept, BooksBalance-new,
}

-- The books balance with what was lost.
abbrev IsCovered : Tables → Type 0
IsCovered t = (lost : String → ℕ) × BooksBalance lost t

Keeps-IsCovered :
    {A : Type 0} {m : Db A}
    → ((lost : String → ℕ) → Keeps (BooksBalance lost) m)
    → Keeps IsCovered m
Keeps-IsCovered k = record { at = λ s h. (h.0, (k h.0).at s h.1) }

-- The deleted tasks were worth what is missing.
completed_rewards-delete_rows :
    (id : String) (r : ReviewerTask → Bool) (ts : List ReviewerTask)
    → completed_rewards id (delete_rows r ts) ≤ completed_rewards id ts
unfolding completed_rewards delete_rows
completed_rewards-delete_rows id r [] = omega arith
completed_rewards-delete_rows id r (t ∷ ts) =
    let rest = completed_rewards-delete_rows id r ts in
    elim (Bool-cases (r t)) [
      | inl e ↦ rw e (omega (arith, rest))
      | inr e ↦ rw e (omega (arith, rest))
    ]

forget : (t : Tables) (r : ReviewerTask → Bool) → (String → ℕ) → String → ℕ
forget t r lost id =
    lost id
    + (completed_rewards id t.reviewer_tasks
        - completed_rewards id (delete_rows r t.reviewer_tasks))

module _ (t t' : Tables) (r : ReviewerTask → Bool) (same : t'.reviewers ≡ t.reviewers)
    (deleted : t'.reviewer_tasks ≡ delete_rows r t.reviewer_tasks) where
  forgotten : (lost : String → ℕ) → BooksBalance lost t → BooksBalance (forget t r lost) t'
  unfolding forget
  forgotten lost b =
      rw (same, deleted)
        (record {
          paid =
              λ id. omega (arith, b.paid id, completed_rewards-delete_rows id r t.reviewer_tasks);
          unpaid = b.unpaid;
          employed = All-delete_rows (IsEmployed t.reviewers) r t.reviewer_tasks b.employed;
        })

module _ (m : ℕ) where
  deletion : (a : Action) → deletes_nothing a ≡ false → Keeps IsCovered (act m a)
  unfolding act deletes_nothing
  deletion (clear_items invoice_id) h = Keeps-ignored (
      delete_invoice_items_changed invoice_id
        (λ t p q r k. (forget t r k.0, forgotten t _ r refl refl k.0 k.1)))
  deletion (remove_invoice invoice_id) h = Keeps-ignored (
      delete_invoice_changed invoice_id
        (λ t vs p q r k. (forget t r k.0, forgotten t _ r refl refl k.0 k.1)))
  deletion a h = absurd (ground arith)

  act-IsCovered : (a : Action) → Keeps IsCovered (act m a)
  act-IsCovered a = elim (Bool-cases (deletes_nothing a)) [
    | inl e ↦ Keeps-IsCovered (λ lost. act-keeps (BooksBalance-kept lost) m a e)
    | inr e ↦ deletion a e
  ]

  run-IsCovered :
      (actions : List Action) (s : Store) → IsCovered s.tables → IsCovered (run m actions s).tables
  unfolding run
  run-IsCovered [] s h = h
  run-IsCovered (a ∷ actions) s h = run-IsCovered actions (act m a s).1 ((act-IsCovered a).at s h)

-- After any history that starts with no reviewer and no task, with the deletions of items and invoices
-- and whichever statements fail, each reviewer has earned at least the rewards of their completed
-- tasks that are there, and all that they have earned is still to be paid out.
pub run-earned :
    (expire_minutes : ℕ) (actions : List Action) (s : Store)
    → IsNew s
    → (id : String)
    → let t = (run expire_minutes actions s).tables in
      (completed_rewards id t.reviewer_tasks ≤ earned id t.reviewers)
      × (pending id t.reviewers ≡ earned id t.reviewers)
run-earned expire_minutes actions s new id =
    let (lost, b) = run-IsCovered expire_minutes actions s ((λ id. 0), BooksBalance-new s new) in
    (omega (arith, b.paid id), b.unpaid id)
