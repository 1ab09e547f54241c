-- ===== src/Reviewer/History/Laws.antt =====
-- What holds after any history, whichever statements of it fail.
use tax_ocr.Prelude.{
  true, false_true, &&-eq_true, ℕ, String, ◌≡◌, ◌⊎◌, refl, none, some, List, [], ◌∷◌, arith,
}
use tax_ocr.Db.Types.{ReviewerTask}
use tax_ocr.Db.Rows.{find}
use tax_ocr.Db.Monad.{Tables, Store, Db}
use tax_ocr.Db.Monad.Keeps.{Keeps, Keeps-pure, Keeps-try, Keeps-bind}
use tax_ocr.Db.ReviewerStore.{
  task_keyed, create_reviewer, update_reviewer, create_reviewer_task, accept_reviewer_task,
  complete_reviewer_task,
}
use tax_ocr.Db.ReviewerStore.Settled.{
  IsSettled, Stands, create_reviewer-Stands, update_reviewer-Stands, create_task-Stands,
  accept_reviewer_task-Stands, complete_reviewer_task-Stands, expire_old_tasks-Stands,
  next_reviewer_round_robin-Stands,
}
use tax_ocr.Db.ReviewerStore.Books.{BooksBalance, earned, pending, completed_rewards}
use tax_ocr.Db.ReviewerStore.Books.Operations.{
  create_reviewer-BooksBalance, update_reviewer-BooksBalance, create_task-BooksBalance,
  accept_reviewer_task-BooksBalance, complete_reviewer_task-BooksBalance,
  expire_old_tasks-BooksBalance, next_reviewer_round_robin-BooksBalance,
}
use tax_ocr.Db.HitlStore.Laws.{
  create_hitl_item-keeps, resolve_hitl_item-keeps, reject_hitl_item-keeps,
}
use tax_ocr.Db.RewardStore.Laws.{update_reward_config-keeps}
use tax_ocr.Reviewer.Service.Laws.{KeptByTasks, assign_for_hitl-keeps, expire_and_reassign-keeps}
use tax_ocr.Reviewer.History.{
  Action, add_reviewer, edit_reviewer, add_task, accept_task, complete_task, add_item, resolve_item,
  reject_item, set_reward, assign, check_expiry, clear_items, remove_invoice, wait, ignored, pass,
  act, run, deletes_nothing, none_deletes,
}

-- A property that all operations keep.
pub record KeptByAll (P : Tables → Type 0) : Type 0 where
  tasks : KeptByTasks P
  adds :
      (name line_user_id reviewer_type : String)
      → Keeps P (create_reviewer name line_user_id reviewer_type)
  edits :
      (id name reviewer_type status : String)
      → Keeps P (update_reviewer id name reviewer_type status)
  accepts : (id : String) → Keeps P (accept_reviewer_task id)
  completes : (id : String) → Keeps P (complete_reviewer_task id)

pub Keeps-ignored : {P : Tables → Type 0} {A : Type 0} {m : Db A} → Keeps P m → Keeps P (ignored m)
unfolding ignored
Keeps-ignored k = Keeps-bind (Keeps-try k) (λ r. Keeps-pure tt)

module _ {P : Tables → Type 0} (k : KeptByAll P) (m : ℕ) where
  pub act-keeps : (a : Action) → deletes_nothing a ≡ true → Keeps P (act m a)
  unfolding act create_reviewer_task pass deletes_nothing
  act-keeps (add_reviewer name line_user_id reviewer_type) h =
      Keeps-ignored (k.adds name line_user_id reviewer_type)
  act-keeps (edit_reviewer id name reviewer_type status) h =
      Keeps-ignored (k.edits id name reviewer_type status)
  act-keeps (add_task hitl_queue_id reviewer_id task_type amount) h =
      Keeps-ignored (k.tasks.creates hitl_queue_id reviewer_id task_type amount none)
  act-keeps (accept_task id) h = Keeps-ignored (k.accepts id)
  act-keeps (complete_task id) h = Keeps-ignored (k.completes id)
  act-keeps (add_item tenant_id invoice_item_id reason) h =
      Keeps-ignored (create_hitl_item-keeps k.tasks.hitl_free tenant_id invoice_item_id reason)
  act-keeps (resolve_item id resolved_by) h =
      Keeps-ignored (resolve_hitl_item-keeps k.tasks.hitl_free id resolved_by)
  act-keeps (reject_item id) h = Keeps-ignored (reject_hitl_item-keeps k.tasks.hitl_free id)
  act-keeps (set_reward id amount updated_by) h =
      Keeps-ignored (update_reward_config-keeps k.tasks.reward_free id amount updated_by)
  act-keeps (assign hitl) h = assign_for_hitl-keeps k.tasks m hitl
  act-keeps check_expiry h = expire_and_reassign-keeps k.tasks m
  act-keeps (clear_items invoice_id) h = absurd (false_true h)
  act-keeps (remove_invoice invoice_id) h = absurd (false_true h)
  act-keeps (wait seconds) h = record { at = λ s h. h }

  run-keeps :
      (actions : List Action) (s : Store)
      → none_deletes actions ≡ true
      → P s.tables
      → P (run m actions s).tables
  unfolding run none_deletes
  run-keeps [] s e h = h
  run-keeps (a ∷ actions) s e h =
      let (spares, rest) = &&-eq_true _ _ e in
      run-keeps actions (act m a s).1 rest ((act-keeps a spares).at s h)

pub BooksBalance-kept : (lost : String → ℕ) → KeptByAll (BooksBalance lost)
BooksBalance-kept lost = record {
  tasks = record {
    hitl_free = λ t hs b. record { paid = b.paid; unpaid = b.unpaid; employed = b.employed };
    reward_free = λ t cs b. record { paid = b.paid; unpaid = b.unpaid; employed = b.employed };
    creates = create_task-BooksBalance;
    picks = next_reviewer_round_robin-BooksBalance;
    expires = expire_old_tasks-BooksBalance;
  };
  adds = create_reviewer-BooksBalance;
  edits = update_reviewer-BooksBalance;
  accepts = accept_reviewer_task-BooksBalance;
  completes = complete_reviewer_task-BooksBalance;
}

-- A store with no reviewer and no task in it.
abbrev pub IsNew : Store → Type 0
IsNew s = (s.tables.reviewers ≡ []) × (s.tables.reviewer_tasks ≡ [])

pub BooksBalance-new : (s : Store) → IsNew s → BooksBalance (λ id. 0) s.tables
unfolding find completed_rewards
BooksBalance-new s (no_reviewer, no_task) = record {
  paid = λ id. rw (no_reviewer, no_task) refl;
  unpaid = λ id. rw no_reviewer refl;
  employed = rw no_task tt;
}

-- After any history that starts with no reviewer and no task and in which no items of an invoice are
-- deleted, by themselves or with the invoice, whichever statements of it fail, each
-- reviewer has earned exactly the rewards of their completed tasks, so that no task is paid twice
-- and none is lost, and all of it is still to be paid out.
pub run-BooksBalance :
    (expire_minutes : ℕ) (actions : List Action) (s : Store)
    → none_deletes actions ≡ true
    → IsNew s
    → (id : String)
    → let t = (run expire_minutes actions s).tables in
      (earned id t.reviewers ≡ completed_rewards id t.reviewer_tasks)
      × (pending id t.reviewers ≡ earned id t.reviewers)
run-BooksBalance expire_minutes actions s spares new id =
    let kept = BooksBalance-kept (λ id. 0) in
    let b = run-keeps kept expire_minutes actions s spares (BooksBalance-new s new) in
    (omega (arith, b.paid id), b.unpaid id)

Stands-kept : (id : String) (row : ReviewerTask) → IsSettled row → KeptByAll (Stands id row)
Stands-kept id row settled = record {
  tasks = record {
    hitl_free = λ t hs h. h;
    reward_free = λ t cs h. h;
    creates = create_task-Stands id row settled;
    picks = next_reviewer_round_robin-Stands id row settled;
    expires = expire_old_tasks-Stands id row settled;
  };
  adds = create_reviewer-Stands id row settled;
  edits = update_reviewer-Stands id row settled;
  accepts = accept_reviewer_task-Stands id row settled;
  completes = complete_reviewer_task-Stands id row settled;
}

-- A task that is completed or expired stays as it is through any history in which no items of an
-- invoice are deleted, by themselves or with the invoice: it is not completed again, not accepted and
-- not assigned to another.
pub run-Stands :
    (expire_minutes : ℕ) (actions : List Action) (s : Store) (id : String) (row : ReviewerTask)
    → none_deletes actions ≡ true
    → find id s.tables.reviewer_tasks ≡ some row
    → (row.status ≡ "completed") ⊎ (row.status ≡ "expired")
    → find id (run expire_minutes actions s).tables.reviewer_tasks ≡ some row
run-Stands expire_minutes actions s id row spares found settled =
    run-keeps (Stands-kept id row settled) expire_minutes actions s spares found
