-- ===== src/Reviewer/Service.antt =====
-- backend/internal/reviewer/service.go
pub mod Laws
use tax_ocr.Prelude.{
  ℕ, ◌+◌, ◌*◌, ◌==◌, String, ◌=ₛ◌, if◌then◌else◌, Option, none, some, List, [], ◌∷◌,
}
use tax_ocr.Db.Types.{Reviewer, ReviewerTask, HitlQueueItem}
use tax_ocr.Db.Monad.{
  DbError, Result, ok, err, task_notice, Db, pure, try, ◌>>=◌, ◌>>◌, time_now, push,
}
use tax_ocr.Db.ReviewerStore.{
  next_reviewer_round_robin, create_reviewer_task_with_expiry, expire_old_tasks,
}
use tax_ocr.Db.HitlStore.{get_hitl_item}
use tax_ocr.Db.RewardStore.{get_reward_amounts}

abbrev pub default_expire_minutes : ℕ
default_expire_minutes = 30

-- The field expireMinutes that NewService sets; a number of minutes below 0 is taken as 0 here,
-- which the test `expireMinutes <= 0` does not tell apart.
unfoldable pub new_service : ℕ → ℕ
new_service expire_minutes = if expire_minutes == 0 then default_expire_minutes else expire_minutes

-- The map reviewerTypeForTask.
unfoldable pub reviewer_type_for_task : String → Option String
reviewer_type_for_task task_type =
    if task_type =ₛ "text_verification"
    then some "text_verifier"
    else if task_type =ₛ "classification_verification"
    then some "classification_verifier"
    else none

unfoldable pub task_types_for_reason : String → List String
task_types_for_reason reason =
    if reason =ₛ "ocr_mismatch"
    then "text_verification" ∷ []
    else if reason =ₛ "classification_needed"
    then "classification_verification" ∷ []
    else "text_verification" ∷ "classification_verification" ∷ []

-- `rewardMap, _ :=`: with an error the map is nil, and every amount 0.
amounts_or_nil : Result (String → ℕ) → String → ℕ
amounts_or_nil (ok amounts) key = amounts key
amounts_or_nil (err e) key = 0

module _ (expire_minutes : ℕ) where
  -- The message to the reviewer once the task is stored.
  notify : Reviewer → String → HitlQueueItem → Result ReviewerTask → Db (Unit {0})
  notify reviewer task_type hitl (err e) = pure tt
  notify reviewer task_type hitl (ok task) =
      push (task_notice reviewer.line_user_id task_type hitl.invoice_item_id expire_minutes)

  -- What is done with the reviewer that was found.
  assign_to : HitlQueueItem → (String → ℕ) → String → Result Reviewer → Db (Unit {0})
  assign_to hitl reward_map task_type (err e) = pure tt
  assign_to hitl reward_map task_type (ok reviewer) = do
    now ← time_now
    task ← try (
        create_reviewer_task_with_expiry hitl.id reviewer.id task_type (reward_map task_type)
          (now + expire_minutes * 60))
    notify reviewer task_type hitl task

  -- One pass of the loop over the task types.
  assign_type : HitlQueueItem → (String → ℕ) → String → Option String → Db (Unit {0})
  assign_type hitl reward_map task_type none = pure tt
  assign_type hitl reward_map task_type (some r_type) = do
    reviewer ← try (next_reviewer_round_robin r_type)
    assign_to hitl reward_map task_type reviewer

  assign_types : HitlQueueItem → (String → ℕ) → List String → Db (Unit {0})
  assign_types hitl reward_map [] = pure tt
  assign_types hitl reward_map (task_type ∷ rest) = do
    assign_type hitl reward_map task_type (reviewer_type_for_task task_type)
    assign_types hitl reward_map rest

  unfoldable pub assign_for_hitl : HitlQueueItem → Db (Unit {0})
  unfolding amounts_or_nil notify assign_to assign_type assign_types
  assign_for_hitl hitl = do
    reward_map ← try get_reward_amounts
    assign_types hitl (amounts_or_nil reward_map) (task_types_for_reason hitl.reason)

  -- `if hitl.Status != "pending" { continue }`
  reassign_item : Result HitlQueueItem → Db (Unit {0})
  reassign_item (err e) = pure tt
  reassign_item (ok hitl) = if hitl.status =ₛ "pending" then assign_for_hitl hitl else pure tt

  reassign : List ReviewerTask → Db (Unit {0})
  reassign [] = pure tt
  reassign (task ∷ tasks) = do
    hitl ← try (get_hitl_item task.hitl_queue_id)
    reassign_item hitl
    reassign tasks

  after_expiry : Result (List ReviewerTask) → Db (Unit {0})
  after_expiry (err e) = pure tt
  after_expiry (ok expired) = reassign expired

  unfoldable pub expire_and_reassign : Db (Unit {0})
  unfolding reassign_item reassign after_expiry
  expire_and_reassign = do expired ← try expire_old_tasks; after_expiry expired
