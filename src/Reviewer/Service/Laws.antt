-- ===== src/Reviewer/Service/Laws.antt =====
-- What the assignment of review tasks keeps: a property of the tables that every operation keeps
-- which the assignment calls is kept by the assignment, whichever statements fail.
use tax_ocr.Prelude.{ℕ, String, ◌=ₛ◌, Option, none, some, List, [], ◌∷◌, Bool-cases, inl, inr}
use tax_ocr.Db.Types.{Reviewer, ReviewerTask, HitlQueueItem, RewardConfig}
use tax_ocr.Db.Monad.{Result, ok, err, Tables}
use tax_ocr.Db.Monad.Keeps.{Keeps, Keeps-pure, Keeps-try, Keeps-bind, Keeps-time_now, Keeps-push}
use tax_ocr.Db.ReviewerStore.{
  create_task, create_reviewer_task_with_expiry, next_reviewer_round_robin, expire_old_tasks,
}
use tax_ocr.Db.HitlStore.Laws.{get_hitl_item-keeps}
use tax_ocr.Db.RewardStore.Laws.{get_reward_amounts-keeps}
use tax_ocr.Reviewer.Service.{
  notify, assign_to, assign_type, assign_types, assign_for_hitl, reassign_item, reassign,
  after_expiry, expire_and_reassign, amounts_or_nil, reviewer_type_for_task, task_types_for_reason,
}

-- The store as the service sees it: the statements that it makes keep the property.
pub record KeptByTasks (P : Tables → Type 0) : Type 0 where
  pub hitl_free : (t : Tables) (hs : List HitlQueueItem) → P t → P (record t { hitl_queue = hs })
  pub reward_free :
      (t : Tables) (cs : List RewardConfig) → P t → P (record t { reward_config = cs })
  pub creates :
      (hitl_queue_id reviewer_id task_type : String) (amount : ℕ) (expired_at : Option ℕ)
      → Keeps P (create_task hitl_queue_id reviewer_id task_type amount expired_at)
  pub picks : (reviewer_type : String) → Keeps P (next_reviewer_round_robin reviewer_type)
  pub expires : Keeps P expire_old_tasks

module _ {P : Tables → Type 0} (k : KeptByTasks P) (expire_minutes : ℕ) where
  notify-keeps :
      (reviewer : Reviewer) (task_type : String) (hitl : HitlQueueItem) (r : Result ReviewerTask)
      → Keeps P (notify expire_minutes reviewer task_type hitl r)
  unfolding notify
  notify-keeps reviewer task_type hitl (ok task) = Keeps-push _
  notify-keeps reviewer task_type hitl (err e) = Keeps-pure _

  assign_to-keeps :
      (hitl : HitlQueueItem) (reward_map : String → ℕ) (task_type : String) (r : Result Reviewer)
      → Keeps P (assign_to expire_minutes hitl reward_map task_type r)
  unfolding assign_to create_reviewer_task_with_expiry
  assign_to-keeps hitl reward_map task_type (err e) = Keeps-pure _
  assign_to-keeps hitl reward_map task_type (ok reviewer) = Keeps-bind Keeps-time_now λ now.
      Keeps-bind (Keeps-try (k.creates hitl.id reviewer.id task_type _ _))
        λ task. notify-keeps reviewer task_type hitl task

  assign_type-keeps :
      (hitl : HitlQueueItem) (reward_map : String → ℕ) (task_type : String) (o : Option String)
      → Keeps P (assign_type expire_minutes hitl reward_map task_type o)
  unfolding assign_type
  assign_type-keeps hitl reward_map task_type none = Keeps-pure _
  assign_type-keeps hitl reward_map task_type (some r_type) =
      Keeps-bind (Keeps-try (k.picks r_type)) (λ r. assign_to-keeps hitl reward_map task_type r)

  assign_types-keeps :
      (hitl : HitlQueueItem) (reward_map : String → ℕ) (types : List String)
      → Keeps P (assign_types expire_minutes hitl reward_map types)
  unfolding assign_types
  assign_types-keeps hitl reward_map [] = Keeps-pure _
  assign_types-keeps hitl reward_map (t ∷ ts) =
      Keeps-bind (assign_type-keeps hitl reward_map t (reviewer_type_for_task t))
        λ x. assign_types-keeps hitl reward_map ts

  pub assign_for_hitl-keeps : (hitl : HitlQueueItem) → Keeps P (assign_for_hitl expire_minutes hitl)
  unfolding assign_for_hitl
  assign_for_hitl-keeps hitl =
      Keeps-bind (Keeps-try (get_reward_amounts-keeps k.reward_free))
        λ m. assign_types-keeps hitl (amounts_or_nil m) (task_types_for_reason hitl.reason)

  reassign_item-keeps : (r : Result HitlQueueItem) → Keeps P (reassign_item expire_minutes r)
  unfolding reassign_item
  reassign_item-keeps (err e) = Keeps-pure _
  reassign_item-keeps (ok hitl) = elim (Bool-cases (hitl.status =ₛ "pending")) [
    | inl e ↦ rw e (assign_for_hitl-keeps hitl)
    | inr e ↦ rw e (Keeps-pure _)
  ]

  reassign-keeps : (tasks : List ReviewerTask) → Keeps P (reassign expire_minutes tasks)
  unfolding reassign
  reassign-keeps [] = Keeps-pure _
  reassign-keeps (task ∷ tasks) =
      Keeps-bind (Keeps-try (get_hitl_item-keeps k.hitl_free task.hitl_queue_id))
        λ h. Keeps-bind (reassign_item-keeps h) (λ x. reassign-keeps tasks)

  after_expiry-keeps : (r : Result (List ReviewerTask)) → Keeps P (after_expiry expire_minutes r)
  unfolding after_expiry
  after_expiry-keeps (err e) = Keeps-pure _
  after_expiry-keeps (ok expired) = reassign-keeps expired

  pub expire_and_reassign-keeps : Keeps P (expire_and_reassign expire_minutes)
  unfolding expire_and_reassign
  expire_and_reassign-keeps = Keeps-bind (Keeps-try k.expires) (λ r. after_expiry-keeps r)
