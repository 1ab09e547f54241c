-- ===== src/Api/ReviewerHandlers/Laws.antt =====
-- What the responses say.
use tax_ocr.Prelude.{true, ℕ, String, List, ◌≡◌, ◌≢◌, refl, ◌⊎◌, none, some}
use tax_ocr.Db.Types.{ReviewerTask}
use tax_ocr.Db.Rows.{find}
use tax_ocr.Db.Monad.{Result, ok, err, Store, Db, ◌>>=◌}
use tax_ocr.Db.ReviewerStore.{task_keyed, complete_reviewer_task}
use tax_ocr.Db.ReviewerStore.Settled.{complete_reviewer_task_settled}
use tax_ocr.Db.HitlStore.{reject_hitl_item}
use tax_ocr.Db.HitlStore.Laws.{reject_hitl_item_never_ok}
use tax_ocr.Reviewer.History.{Action, run, none_deletes}
use tax_ocr.Reviewer.History.Laws.{run-Stands}
use tax_ocr.Api.ReviewerHandlers.{
  Response, answer, answering, always_not_found, handle_complete_reviewer_task,
  handle_reject_hitl_item,
}

module _ {A : Type 0} where
  answering_404 :
      (m : Db A) (s : Store)
      → ((a : A) → (m s).0 ≢ ok a)
      → (answering 200 always_not_found m s).0 ≡ ok (record { status = 404; body = none })
  unfolding answering answer ◌>>=◌
  answering_404 m s never = decided (m s).0 never
    where
      decided :
          (r : Result A)
          → ((a : A) → r ≢ ok a)
          → ◌≡◌ {A = Result (Response A)}
              (ok (answer 200 always_not_found r))
              (ok (record { status = 404; body = none }))
      decided (ok a) never = absurd (never a refl)
      decided (err e) never = refl

-- A task that was completed or has expired cannot be completed, now or later: after any history in
-- which no items of an invoice are deleted, by themselves or with the invoice, the request is answered
-- with 404, whichever statements fail.
pub handle_complete_reviewer_task_settled :
    (expire_minutes : ℕ) (actions : List Action) (s : Store) (id : String) (row : ReviewerTask)
    → none_deletes actions ≡ true
    → find id s.tables.reviewer_tasks ≡ some row
    → (row.status ≡ "completed") ⊎ (row.status ≡ "expired")
    → (handle_complete_reviewer_task id (run expire_minutes actions s)).0
      ≡ ok (record { status = 404; body = none })
unfolding handle_complete_reviewer_task
handle_complete_reviewer_task_settled expire_minutes actions s id row spares found settled =
    let s' = run expire_minutes actions s in
    answering_404 (complete_reviewer_task id) s' (
      complete_reviewer_task_settled id row settled s'
        (run-Stands expire_minutes actions s id row spares found settled))

-- The request to reject an item is answered with 404 for every item.
pub handle_reject_hitl_item_404 :
    (id : String) (s : Store)
    → (handle_reject_hitl_item id s).0 ≡ ok (record { status = 404; body = none })
unfolding handle_reject_hitl_item
handle_reject_hitl_item_404 id s =
    answering_404 (reject_hitl_item id) s (reject_hitl_item_never_ok id s)
