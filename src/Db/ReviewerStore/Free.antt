-- ===== src/Db/ReviewerStore/Free.antt =====
-- What the statements of the assignment keep: every property that does not look at reviewer_tasks.
use tax_ocr.Prelude.{
  ℕ, String, ◌=ₛ◌, ◌≡◌, ◌||◌, subst, Option, List, [], ◌∷◌, ◌++◌, Bool-cases, inl, inr, arith,
}
use tax_ocr.Db.Types.{ReviewerTask}
use tax_ocr.Db.Monad.{ok, Tables}
use tax_ocr.Db.Monad.Keeps.{
  ok_tables, Keeps, Keeps-raise, Keeps-new_id, Keeps-bind, Keeps-statement,
}
use tax_ocr.Db.ReviewerStore.{
  task_keyed, insert_task, new_task, create_task, next_reviewer_round_robin, expire_old_tasks,
}
use tax_ocr.Db.ReviewerStore.Settled.{row_or_not_found_same}

insert_task_tables :
    (task : ReviewerTask) (t t' : Tables) (a : ReviewerTask)
    → insert_task task t ≡ ok (a, t')
    → t' ≡ record t { reviewer_tasks = t.reviewer_tasks ++ task ∷ [] }
unfolding insert_task
insert_task_tables task t t' a e = ground arith

module _ {P : Tables → Type 0}
    (free : (t : Tables) (xs : List ReviewerTask)
      → P t
      → P (record t { reviewer_tasks = xs })) where
  pub create_task-keeps :
      (hitl_queue_id reviewer_id task_type : String) (amount : ℕ) (expired_at : Option ℕ)
      → Keeps P (create_task hitl_queue_id reviewer_id task_type amount expired_at)
  unfolding create_task
  create_task-keeps hitl_queue_id reviewer_id task_type amount expired_at =
      elim (Bool-cases (hitl_queue_id =ₛ "" || reviewer_id =ₛ "" || task_type =ₛ "")) [
        | inl e ↦ rw e (Keeps-raise _)
        | inr e ↦ rw e (
            Keeps-bind Keeps-new_id λ new. Keeps-statement _ λ now t a t' h q.
              rw
                (insert_task_tables
                  (new_task now new hitl_queue_id reviewer_id task_type amount expired_at) t t' a q)
                (free t _ h))
      ]

  pub next_reviewer_round_robin-keeps :
      (reviewer_type : String) → Keeps P (next_reviewer_round_robin reviewer_type)
  unfolding next_reviewer_round_robin
  next_reviewer_round_robin-keeps reviewer_type =
      Keeps-statement _ λ now t a t' h e. subst P (row_or_not_found_same _ t t' a e) h

  pub expire_old_tasks-keeps : Keeps P expire_old_tasks
  unfolding expire_old_tasks
  expire_old_tasks-keeps =
      Keeps-statement _ λ now t a t' h e. subst P (ok_tables _ a _ t' e) (free t _ h)
