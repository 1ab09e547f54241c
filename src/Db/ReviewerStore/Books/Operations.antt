-- ===== src/Db/ReviewerStore/Books/Operations.antt =====
-- Every operation of the store on reviewers and their tasks keeps the books balanced.
use tax_ocr.Prelude.{
  ap, ◌+◌, ℕ, String, ◌=ₛ◌, ◌≡◌, refl, sym, ◌∙◌, subst, Bool, true, false, Option, none, some, List,
  ◌++◌, [], ◌∷◌, if◌then◌else◌, ◌||◌, arith, Bool-cases, inl, inr, All-append, All-mono,
}
use tax_ocr.Db.Types.{Reviewer, ReviewerTask}
use tax_ocr.Db.Rows.{
  find, set_row, update_row, find-set_row, update_row_changed, altered, All-set_row,
  All-update_rows,
}
use tax_ocr.Db.Monad.{ok, Tables}
use tax_ocr.Db.Monad.Keeps.{
  ok_tables, Keeps, Keeps-raise, Keeps-new_id, Keeps-bind, Keeps-statement, Keeps-transaction,
}
use tax_ocr.Db.ReviewerStore.{
  reviewer_keyed, task_keyed, hitl_keyed, is_some, insert_reviewer, insert_task, task_allowed,
  is_overdue, expire, is_sent, accept, complete_reviewer_task, accept_reviewer_task,
  expire_old_tasks, new_task, create_task, create_reviewer, new_reviewer, update_reviewer,
  revise_reviewer, store_reviewer, next_reviewer_round_robin,
}
use tax_ocr.Db.ReviewerStore.Settled.{row_or_not_found_same}
use tax_ocr.Db.ReviewerStore.Books.{
  earned_by, pending_of, BooksBalance, IsEmployed, earned, pending, completed_rewards,
  completed_rewards-append, completed_rewards-accept, completed_rewards-expire, store_task_ok,
  complete_body, complete_body-BooksBalance, IsEmployed-set_row,
}

insert_task_ok :
    (task : ReviewerTask) (t t' : Tables) (a : ReviewerTask)
    → insert_task task t ≡ ok (a, t')
    → (task_allowed task t ≡ true)
      × (record t { reviewer_tasks = t.reviewer_tasks ++ task ∷ [] } ≡ t')
unfolding insert_task
insert_task_ok task t t' a e = (ground arith, ground arith)

find-append_new :
    (id : String) (rs : List Reviewer) (r : Reviewer)
    → r.total_earned ≡ 0
    → r.pending_payout ≡ 0
    → (earned id (rs ++ r ∷ []) ≡ earned id rs) × (pending id (rs ++ r ∷ []) ≡ pending id rs)
unfolding find
find-append_new id [] r p q = (ground arith, ground arith)
find-append_new id (x ∷ rs) r p q =
    let rest = find-append_new id rs r p q in
    elim (Bool-cases (x.id =ₛ id)) [ inl e ↦ rw e (refl, refl) | inr e ↦ rw e rest ]

is_some-append :
    (id : String) (rs : List Reviewer) (r : Reviewer)
    → is_some (find id rs) ≡ true
    → is_some (find id (rs ++ r ∷ [])) ≡ true
unfolding find is_some
is_some-append id [] r h = absurd (ground arith)
is_some-append id (x ∷ rs) r h = elim (Bool-cases (x.id =ₛ id)) [
  | inl e ↦ rw e
  | inr e ↦ rw e (is_some-append id rs r (rw e at h))
]

insert_reviewer_ok :
    (r : Reviewer) (t t' : Tables) (a : Reviewer)
    → insert_reviewer r t ≡ ok (a, t')
    → record t { reviewers = t.reviewers ++ r ∷ [] } ≡ t'
unfolding insert_reviewer
insert_reviewer_ok r t t' a e = ground arith

revised_amounts :
    (id j : String) (f : Reviewer → Reviewer) (rs : List Reviewer)
    → ((z : Reviewer) → (f z).id ≡ z.id)
    → ((z : Reviewer) → (f z).total_earned ≡ z.total_earned)
    → ((z : Reviewer) → (f z).pending_payout ≡ z.pending_payout)
    → (earned id (set_row j (λ r. true) f rs) ≡ earned id rs)
      × (pending id (set_row j (λ r. true) f rs) ≡ pending id rs)
revised_amounts id j f rs same p q =
    rw (find-set_row j id (λ r. true) f rs same) (cases (find id rs) (j =ₛ id))
  where
    cases :
        (o : Option Reviewer) (b : Bool)
        → (earned_by (if b then altered (λ r. true) f o else o) ≡ earned_by o)
          × (pending_of (if b then altered (λ r. true) f o else o) ≡ pending_of o)
    cases none true = (refl, refl)
    cases none false = (refl, refl)
    cases (some r) true = (p r, q r)
    cases (some r) false = (refl, refl)

store_reviewer_ok :
    (o : Option (Reviewer × List Reviewer)) (t t' : Tables) (a : Reviewer)
    → store_reviewer o t ≡ ok (a, t')
    → (o ≡ some (a, t'.reviewers)) × (t' ≡ record t { reviewers = t'.reviewers })
unfolding store_reviewer
store_reviewer_ok none t t' a e = cc
store_reviewer_ok (some (x, xs)) t t' a e = ground arith

module _ {lost : String → ℕ} where
  pub complete_reviewer_task-BooksBalance :
      (j : String) → Keeps (BooksBalance lost) (complete_reviewer_task j)
  unfolding complete_reviewer_task complete_body
  complete_reviewer_task-BooksBalance j =
      Keeps-transaction (complete_body j) (λ s a b e. complete_body-BooksBalance j s a b e)

  accepted :
      (j : String) (now : ℕ) (t : Tables)
      → (BooksBalance lost) t
      → (BooksBalance lost)
          (record t { reviewer_tasks = set_row j is_sent (accept now) t.reviewer_tasks })
  unfolding accept
  accepted j now t b = record {
    paid = λ id.
        b.paid id
        ∙ ap (λ n. n + lost id) (sym (completed_rewards-accept id j now t.reviewer_tasks));
    unpaid = b.unpaid;
    employed =
        All-set_row (IsEmployed t.reviewers) j is_sent (accept now) t.reviewer_tasks (λ x h. h)
          b.employed;
  }

  pub accept_reviewer_task-BooksBalance :
      (j : String) → Keeps (BooksBalance lost) (accept_reviewer_task j)
  unfolding accept_reviewer_task
  accept_reviewer_task-BooksBalance j = Keeps-statement _ λ now t a t' b e.
      let (row, same) = store_task_ok _ t t' a e in
      let (_, _, _, _, table) =
        update_row_changed j is_sent (accept now) t.reviewer_tasks a t'.reviewer_tasks row in
      rw (same, table) (accepted j now t b)

  pub expire_old_tasks-BooksBalance : Keeps (BooksBalance lost) expire_old_tasks
  unfolding expire_old_tasks
  expire_old_tasks-BooksBalance = Keeps-statement _ λ now t a t' b e.
      subst (BooksBalance lost) (ok_tables _ a _ t' e) (record {
        paid = λ id.
            b.paid id
            ∙ ap (λ n. n + lost id) (sym (completed_rewards-expire id now t.reviewer_tasks));
        unpaid = b.unpaid;
        employed =
            All-update_rows (IsEmployed t.reviewers) (is_overdue now) (expire now) t.reviewer_tasks
              (λ x h. h) b.employed;
      })

  -- A new task is worth nothing yet.
  inserted_task :
      (task : ReviewerTask) (t : Tables)
      → task_allowed task t ≡ true
      → task.status ≡ "sent"
      → (BooksBalance lost) t
      → (BooksBalance lost) (record t { reviewer_tasks = t.reviewer_tasks ++ task ∷ [] })
  unfolding task_allowed completed_rewards
  inserted_task task t allowed sent b = record {
    paid = λ id.
        b.paid id
        ∙ ap (λ n. n + lost id)
            (sym
              (completed_rewards-append id t.reviewer_tasks (task ∷ []) ∙ rw sent (ground arith)));
    unpaid = b.unpaid;
    employed =
        All-append (IsEmployed t.reviewers) t.reviewer_tasks (task ∷ []) b.employed
          (ground arith, tt);
  }

  pub create_task-BooksBalance :
      (hitl_queue_id reviewer_id task_type : String) (amount : ℕ) (expired_at : Option ℕ)
      → Keeps
          (BooksBalance lost)
          (create_task hitl_queue_id reviewer_id task_type amount expired_at)
  unfolding create_task
  create_task-BooksBalance hitl_queue_id reviewer_id task_type amount expired_at =
      elim (Bool-cases (hitl_queue_id =ₛ "" || reviewer_id =ₛ "" || task_type =ₛ "")) [
        | inl e ↦ rw e (Keeps-raise _)
        | inr e ↦ rw e (
            Keeps-bind Keeps-new_id λ new. Keeps-statement _ λ now t a t' b q.
              let task = new_task now new hitl_queue_id reviewer_id task_type amount expired_at in
              let (allowed, table) = insert_task_ok task t t' a q in
              subst (BooksBalance lost) table (inserted_task task t allowed refl b))
      ]

  pub next_reviewer_round_robin-BooksBalance :
      (reviewer_type : String) → Keeps (BooksBalance lost) (next_reviewer_round_robin reviewer_type)
  unfolding next_reviewer_round_robin
  next_reviewer_round_robin-BooksBalance reviewer_type =
      Keeps-statement _
        λ now t a t' b e. subst (BooksBalance lost) (row_or_not_found_same _ t t' a e) b

  inserted_reviewer :
      (r : Reviewer) (t : Tables)
      → r.total_earned ≡ 0
      → r.pending_payout ≡ 0
      → (BooksBalance lost) t
      → (BooksBalance lost) (record t { reviewers = t.reviewers ++ r ∷ [] })
  inserted_reviewer r t p q b = record {
    paid = λ id. (find-append_new id t.reviewers r p q).0 ∙ b.paid id;
    unpaid = λ id.
        (find-append_new id t.reviewers r p q).1
        ∙ b.unpaid id
        ∙ sym (find-append_new id t.reviewers r p q).0;
    employed =
        All-mono (IsEmployed t.reviewers) (IsEmployed (t.reviewers ++ r ∷ [])) t.reviewer_tasks
          (λ x h. is_some-append x.reviewer_id t.reviewers r h) b.employed;
  }

  pub create_reviewer-BooksBalance :
      (name line_user_id reviewer_type : String)
      → Keeps (BooksBalance lost) (create_reviewer name line_user_id reviewer_type)
  unfolding create_reviewer
  create_reviewer-BooksBalance name line_user_id reviewer_type =
      elim (Bool-cases (name =ₛ "" || line_user_id =ₛ "" || reviewer_type =ₛ "")) [
        | inl e ↦ rw e (Keeps-raise _)
        | inr e ↦ rw e (
            Keeps-bind Keeps-new_id λ new. Keeps-statement _ λ now t a t' b q.
              let r = new_reviewer now new name line_user_id reviewer_type in
              subst (BooksBalance lost) (insert_reviewer_ok r t t' a q)
                (inserted_reviewer r t refl refl b))
      ]

  revised :
      (j : String) (f : Reviewer → Reviewer) (t : Tables)
      → ((z : Reviewer) → (f z).id ≡ z.id)
      → ((z : Reviewer) → (f z).total_earned ≡ z.total_earned)
      → ((z : Reviewer) → (f z).pending_payout ≡ z.pending_payout)
      → (BooksBalance lost) t
      → (BooksBalance lost) (record t { reviewers = set_row j (λ r. true) f t.reviewers })
  revised j f t same p q b = record {
    paid = λ id. (revised_amounts id j f t.reviewers same p q).0 ∙ b.paid id;
    unpaid = λ id.
        (revised_amounts id j f t.reviewers same p q).1
        ∙ b.unpaid id
        ∙ sym (revised_amounts id j f t.reviewers same p q).0;
    employed =
        All-mono (IsEmployed t.reviewers) _ t.reviewer_tasks
          (IsEmployed-set_row j (λ r. true) f t.reviewers same) b.employed;
  }

  pub update_reviewer-BooksBalance :
      (j name reviewer_type status : String)
      → Keeps (BooksBalance lost) (update_reviewer j name reviewer_type status)
  unfolding update_reviewer
  update_reviewer-BooksBalance j name reviewer_type status = Keeps-statement _ λ now t a t' b e.
      let f = revise_reviewer now name reviewer_type status in
      let (row, same) = store_reviewer_ok (update_row j (λ r. true) f t.reviewers) t t' a e in
      let (_, _, _, _, table) = update_row_changed j (λ r. true) f t.reviewers a t'.reviewers row in
      rw (same, table) (revised j f t (λ z. refl) (λ z. refl) (λ z. refl) b)
