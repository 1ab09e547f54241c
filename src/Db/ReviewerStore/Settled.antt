-- ===== src/Db/ReviewerStore/Settled.antt =====
-- A task that is completed or expired is never written again by an operation of the store.
use tax_ocr.Prelude.{
  false_true, ℕ, String, ◌=ₛ◌, ◌≡◌, ◌≢◌, refl, sym, ap, ◌∙◌, subst, ◌⊎◌, inl, inr, Bool, true,
  false, Option, none, some, List, [], ◌∷◌, ◌||◌, arith, Bool-cases,
}
use tax_ocr.Db.Types.{Reviewer, ReviewerTask}
use tax_ocr.Db.Rows.{
  find, update_row, find-append, find-set_row, find-update_rows, update_row_changed, altered,
}
use tax_ocr.Db.Monad.{not_found, Result, ok, err, Tables, Store, statement}
use mathlib.Core.Option.{some-injective}
use tax_ocr.Db.Monad.Keeps.{
  ok_tables, Keeps, Keeps-pure, Keeps-raise, Keeps-new_id, Keeps-bind, Keeps-statement,
  Keeps-transaction_body,
}
use tax_ocr.Db.Monad.Returns.{
  transaction_ok, bind_ok, statement_ok, statement_quiet, statement_refused,
}
use tax_ocr.Db.ReviewerStore.{
  task_keyed, reviewer_keyed, hitl_keyed, insert_reviewer, new_reviewer, create_reviewer,
  revise_reviewer, store_reviewer, update_reviewer, new_task, insert_task, create_task,
  next_reviewer_round_robin, row_or_not_found, is_overdue, expire, expire_old_tasks, store_task,
  is_sent, accept, accept_reviewer_task, is_open, complete, mark_completed, credit,
  complete_reviewer_task,
}

-- The row is one of a task that is over.
abbrev pub IsSettled : ReviewerTask → Type 0
IsSettled row = (row.status ≡ "completed") ⊎ (row.status ≡ "expired")

-- The task `id` has this row.
abbrev pub Stands : String → ReviewerTask → Tables → Type 0
Stands id row t = find id t.reviewer_tasks ≡ some row

module _ {A : Type 0} where
  pub row_or_not_found_same :
      (o : Option A) (t t' : Tables) (a : A) → row_or_not_found o t ≡ ok (a, t') → t ≡ t'
  row_or_not_found_same none t t' a e = cc
  row_or_not_found_same (some x) t t' a e = cc

module _ {A : Type 0} where
  abbrev pub answer_of : Option A → Result A
  answer_of none = err not_found
  answer_of (some a) = ok a

  -- A query of one row that does not fail.
  pub row_read :
      (rows : Tables → Option A) (s : Store) (o : Option A)
      → s.faults ≡ []
      → rows s.tables ≡ o
      → statement (λ now t. row_or_not_found (rows t) t) s ≡ (answer_of o, s)
  row_read rows s none quiet e = statement_refused _ s not_found quiet (rw e refl)
  row_read rows s (some a) quiet e = statement_quiet _ s a quiet (rw e refl)

is_sent_settled : (row : ReviewerTask) → IsSettled row → is_sent row ≡ false
unfolding is_sent
is_sent_settled row (inl e) = rw e
is_sent_settled row (inr e) = rw e

is_open_settled : (row : ReviewerTask) → IsSettled row → is_open row ≡ false
unfolding is_open
is_open_settled row (inl e) = rw e
is_open_settled row (inr e) = rw e

is_overdue_settled : (now : ℕ) (row : ReviewerTask) → IsSettled row → is_overdue now row ≡ false
unfolding is_overdue
is_overdue_settled now row (inl e) = rw e
is_overdue_settled now row (inr e) = rw e

store_task_changed :
    (o : Option (ReviewerTask × List ReviewerTask)) (t t' : Tables) (a : ReviewerTask)
    → store_task o t ≡ ok (a, t')
    → (o ≡ some (a, t'.reviewer_tasks)) × (t'.reviewers ≡ t.reviewers)
unfolding store_task
store_task_changed none t t' a e = cc
store_task_changed (some (x, xs)) t t' a e = ground arith

module _ (id : String) (row : ReviewerTask) (settled : IsSettled row) where
  store_task-Stands :
      (j : String) (guard : ReviewerTask → Bool) (f : ReviewerTask → ReviewerTask)
      → ((z : ReviewerTask) → (f z).id ≡ z.id)
      → guard row ≡ false
      → (t t' : Tables) (a : ReviewerTask) → Stands id row t
      → store_task (update_row j guard f t.reviewer_tasks) t ≡ ok (a, t')
      → Stands id row t'
  store_task-Stands j guard f same refused t t' a h e =
      let (x, _, _, _, table) =
        update_row_changed j guard f t.reviewer_tasks a t'.reviewer_tasks
          (store_task_changed _ t t' a e).0 in
      rw (table, find-set_row j id guard f t.reviewer_tasks same, h, refused) (ground arith)

  pub accept_reviewer_task-Stands : (j : String) → Keeps (Stands id row) (accept_reviewer_task j)
  unfolding accept_reviewer_task
  accept_reviewer_task-Stands j = Keeps-statement _ λ now t a t' h e.
      store_task-Stands j is_sent (accept now) (λ z. refl) (is_sent_settled row settled) t t' a h e

  mark_completed-Stands : (j : String) → Keeps (Stands id row) (mark_completed j)
  unfolding mark_completed complete
  mark_completed-Stands j = Keeps-statement _ λ now t a t' h e.
      store_task-Stands j is_open (complete now) (λ z. refl) (is_open_settled row settled) t t' a h
        e

  credit-Stands : (j : String) (amount : ℕ) → Keeps (Stands id row) (credit j amount)
  unfolding credit
  credit-Stands j amount =
      Keeps-statement _ λ now t a t' h e. subst (Stands id row) (ok_tables tt a _ t' e) h

  pub complete_reviewer_task-Stands :
      (j : String) → Keeps (Stands id row) (complete_reviewer_task j)
  unfolding complete_reviewer_task
  complete_reviewer_task-Stands j = Keeps-transaction_body (
      Keeps-bind (mark_completed-Stands j)
        λ task. Keeps-bind (credit-Stands task.reviewer_id task.reward_amount) λ x. Keeps-pure task)

  pub expire_old_tasks-Stands : Keeps (Stands id row) expire_old_tasks
  unfolding expire_old_tasks
  expire_old_tasks-Stands = Keeps-statement _ λ now t a t' h e.
      subst (Stands id row) (ok_tables _ a _ t' e) (
        find-update_rows id (is_overdue now) (expire now) t.reviewer_tasks (λ z. refl)
        ∙ ap (altered (is_overdue now) (expire now)) h
        ∙ rw (is_overdue_settled now row settled))

  insert_task-Stands :
      (task : ReviewerTask) (t t' : Tables) (a : ReviewerTask)
      → Stands id row t
      → insert_task task t ≡ ok (a, t')
      → Stands id row t'
  unfolding insert_task
  insert_task-Stands task t t' a h e =
      ground (arith, find-append id t.reviewer_tasks (task ∷ []) row h)

  pub create_task-Stands :
      (hitl_queue_id reviewer_id task_type : String) (amount : ℕ) (expired_at : Option ℕ)
      → Keeps (Stands id row) (create_task hitl_queue_id reviewer_id task_type amount expired_at)
  unfolding create_task
  create_task-Stands hitl_queue_id reviewer_id task_type amount expired_at =
      elim (Bool-cases (hitl_queue_id =ₛ "" || reviewer_id =ₛ "" || task_type =ₛ "")) [
        | inl e ↦ rw e (Keeps-raise _)
        | inr e ↦ rw e (
            Keeps-bind Keeps-new_id λ new. Keeps-statement _ λ now t a t' h e.
              insert_task-Stands
                (new_task now new hitl_queue_id reviewer_id task_type amount expired_at) t t' a h e)
      ]

  insert_reviewer-Stands :
      (r : Reviewer) (t t' : Tables) (a : Reviewer)
      → insert_reviewer r t ≡ ok (a, t')
      → t.reviewer_tasks ≡ t'.reviewer_tasks
  unfolding insert_reviewer
  insert_reviewer-Stands r t t' a e = ground arith

  store_reviewer-Stands :
      (o : Option (Reviewer × List Reviewer)) (t t' : Tables) (a : Reviewer)
      → store_reviewer o t ≡ ok (a, t')
      → t.reviewer_tasks ≡ t'.reviewer_tasks
  unfolding store_reviewer
  store_reviewer-Stands none t t' a e = cc
  store_reviewer-Stands (some (r, rs)) t t' a e = ground arith

  pub create_reviewer-Stands :
      (name line_user_id reviewer_type : String)
      → Keeps (Stands id row) (create_reviewer name line_user_id reviewer_type)
  unfolding create_reviewer
  create_reviewer-Stands name line_user_id reviewer_type =
      elim (Bool-cases (name =ₛ "" || line_user_id =ₛ "" || reviewer_type =ₛ "")) [
        | inl e ↦ rw e (Keeps-raise _)
        | inr e ↦ rw e (
            Keeps-bind Keeps-new_id λ new. Keeps-statement _ λ now t a t' h q.
              rw
                (← insert_reviewer-Stands (new_reviewer now new name line_user_id reviewer_type) t
                  t' a q)
                h)
      ]

  pub update_reviewer-Stands :
      (j name reviewer_type status : String)
      → Keeps (Stands id row) (update_reviewer j name reviewer_type status)
  unfolding update_reviewer
  update_reviewer-Stands j name reviewer_type status = Keeps-statement _ λ now t a t' h q.
      rw
        (← store_reviewer-Stands
          (update_row j (λ r. true) (revise_reviewer now name reviewer_type status) t.reviewers) t
          t' a q)
        h

  pub next_reviewer_round_robin-Stands :
      (reviewer_type : String) → Keeps (Stands id row) (next_reviewer_round_robin reviewer_type)
  unfolding next_reviewer_round_robin
  next_reviewer_round_robin-Stands reviewer_type =
      Keeps-statement _ λ now t a t' h e. subst (Stands id row) (row_or_not_found_same _ t t' a e) h

  mark_completed_settled :
      (s : Store) (a : ReviewerTask) → Stands id row s.tables → (mark_completed id s).0 ≢ ok a
  unfolding mark_completed
  mark_completed_settled s a h e =
      let (changed, _) = store_task_changed _ s.tables _ a (statement_ok _ s a e) in
      let (x, found, opened, _, _) =
        update_row_changed id is_open (complete s.now) s.tables.reviewer_tasks a _ changed in
      absurd (
        false_true (
          sym (is_open_settled row settled)
          ∙ ap is_open (some-injective row x (sym h ∙ found))
          ∙ opened))

  -- A task that is over cannot be completed.
  pub complete_reviewer_task_settled :
      (s : Store)
      → Stands id row s.tables
      → (a : ReviewerTask) → (complete_reviewer_task id s).0 ≢ ok a
  unfolding complete_reviewer_task
  complete_reviewer_task_settled s h a e =
      let (s', same, e') = transaction_ok _ s a e in
      let (marked, e1, _, _) = bind_ok (mark_completed id) _ s' a e' in
      mark_completed_settled s' marked (rw same h) e1
