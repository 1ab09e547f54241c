-- ===== src/Reviewer/History.antt =====
-- Histories of the reviewers' part of the program: the handlers of
-- backend/internal/api/reviewer_handler.go, hitl_handler.go and reward_handler.go call one operation
-- of the store each, the queue's worker adds items for review and has them assigned, and the service
-- of backend/internal/reviewer/service.go checks every minute what has expired. A worker that has an
-- invoice read again deletes its items, and the handler of invoices the invoice, and so the entries
-- and the tasks on them. A history is any sequence of these, while the clock advances.
pub mod Laws
pub mod Deletions
use tax_ocr.Prelude.{ℕ, ◌+◌, Bool, true, false, ◌&&◌, String, Option, List, [], ◌∷◌}
use tax_ocr.Db.Types.{HitlQueueItem}
use tax_ocr.Db.Monad.{ok, Store, Db, pure, try, ◌>>=◌, ◌>>◌}
use tax_ocr.Db.ReviewerStore.{
  create_reviewer, update_reviewer, create_reviewer_task, accept_reviewer_task,
  complete_reviewer_task,
}
use tax_ocr.Db.HitlStore.{create_hitl_item, resolve_hitl_item, reject_hitl_item}
use tax_ocr.Db.RewardStore.{update_reward_config}
use tax_ocr.Db.InvoiceStore.Delete.{delete_invoice_items_by_invoice_id, delete_invoice}
use tax_ocr.Reviewer.Service.{assign_for_hitl, expire_and_reassign}

pub data Action : Type 0 where
  add_reviewer : (name line_user_id reviewer_type : String) → Action
  edit_reviewer : (id name reviewer_type status : String) → Action
  add_task : (hitl_queue_id reviewer_id task_type : String) (reward_amount : ℕ) → Action
  accept_task complete_task : (id : String) → Action
  add_item : (tenant_id invoice_item_id reason : String) → Action
  resolve_item : (id resolved_by : String) → Action
  reject_item : (id : String) → Action
  set_reward : (id : String) (amount : ℕ) (updated_by : String) → Action
  -- AssignForHitl with an item that was read before
  assign : HitlQueueItem → Action
  -- one tick of the expiry checker
  check_expiry : Action
  -- handleProcessInvoice before it saves the items, and deleteInvoice
  clear_items remove_invoice : (invoice_id : String) → Action
  wait : (seconds : ℕ) → Action

-- The caller has the error; the program goes on.
pub ignored : {A : Type 0} → Db A → Db (Unit {0})
ignored m = try m >>= λ r. pure tt

pass : ℕ → Db (Unit {0})
pass seconds s = (ok tt, record s { now = s.now + seconds })

unfoldable pub act : (expire_minutes : ℕ) → Action → Db (Unit {0})
unfolding ignored pass
act m (add_reviewer name line_user_id reviewer_type) =
    ignored (create_reviewer name line_user_id reviewer_type)
act m (edit_reviewer id name reviewer_type status) =
    ignored (update_reviewer id name reviewer_type status)
act m (add_task hitl_queue_id reviewer_id task_type reward_amount) =
    ignored (create_reviewer_task hitl_queue_id reviewer_id task_type reward_amount)
act m (accept_task id) = ignored (accept_reviewer_task id)
act m (complete_task id) = ignored (complete_reviewer_task id)
act m (add_item tenant_id invoice_item_id reason) =
    ignored (create_hitl_item tenant_id invoice_item_id reason)
act m (resolve_item id resolved_by) = ignored (resolve_hitl_item id resolved_by)
act m (reject_item id) = ignored (reject_hitl_item id)
act m (set_reward id amount updated_by) = ignored (update_reward_config id amount updated_by)
act m (assign hitl) = assign_for_hitl m hitl
act m check_expiry = expire_and_reassign m
act m (clear_items invoice_id) = ignored (delete_invoice_items_by_invoice_id invoice_id)
act m (remove_invoice invoice_id) = ignored (delete_invoice invoice_id)
act m (wait seconds) = pass seconds

-- Whether an action takes no items away, and so no tasks.
unfoldable pub deletes_nothing : Action → Bool
deletes_nothing (clear_items invoice_id) = false
deletes_nothing (remove_invoice invoice_id) = false
deletes_nothing a = true

unfoldable pub none_deletes : List Action → Bool
unfolding deletes_nothing
none_deletes [] = true
none_deletes (a ∷ actions) = deletes_nothing a && none_deletes actions

unfoldable pub run : (expire_minutes : ℕ) → List Action → Store → Store
run m [] s = s
run m (a ∷ actions) s = run m actions (act m a s).1
