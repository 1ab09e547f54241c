-- ===== src/Examples/Reviewers.antt =====
-- A reviewer, an item for review and its task.
use tax_ocr.Prelude.{
  ◌≤◌, ℕ, suc, zero, String, ◌≡◌, ◌≢◌, refl, inl, true, false, none, some, List, [], ◌∷◌, ◌=ₛ◌, All,
  ◌++◌,
}
use tax_ocr.Db.Types.{Reviewer, ReviewerTask, HitlQueueItem}
use tax_ocr.Db.Rows.{find, set_row, update_row, delete_rows, exists}
use tax_ocr.Db.InvoiceStore.Delete.{delete_invoice_items_by_invoice_id}
use tax_ocr.Db.Monad.{ok, err, not_found, Store, statement, transaction, ◌>>=◌}
use tax_ocr.Db.ReviewerStore.{
  is_some, create_reviewer, create_reviewer_task, accept_reviewer_task, complete_reviewer_task,
  task_keyed, hitl_keyed, is_available, last_sent, next_reviewer_round_robin,
}
use tax_ocr.Db.ReviewerStore.Books.{earned, pending, completed_rewards}
use tax_ocr.Db.ReviewerStore.RoundRobin.{IsLeast, next_reviewer_round_robin_lem}
use tax_ocr.Db.HitlStore.{create_hitl_item, resolve_hitl_item, reject_hitl_item}
use tax_ocr.Db.HitlStore.Laws.{resolve_hitl_item_lem, reject_hitl_item_never_ok}
use tax_ocr.Examples.Rows.{one_invoice}
use tax_ocr.Reviewer.History.{
  Action, add_reviewer, add_item, add_task, accept_task, complete_task, check_expiry, wait, act,
  run, none_deletes, clear_items,
}
use tax_ocr.Reviewer.History.Deletions.{run-earned}
use tax_ocr.Reviewer.History.Laws.{run-BooksBalance, run-Stands}
use tax_ocr.Api.ReviewerHandlers.{handle_complete_reviewer_task}
use tax_ocr.Api.ReviewerHandlers.Laws.{handle_complete_reviewer_task_settled}

abbrev uuid_of : ℕ → String
uuid_of zero = "a"
uuid_of (suc n) = "b"

abbrev new_store : Store
new_store = record {
  tables = one_invoice;
  now = 100;
  uuid = uuid_of;
  serial = 0;
  invoice_numbers = 1;
  faults = [];
  outbox = [];
}

abbrev script : List Action
script =
    add_reviewer "Nok" "line-1" "text_verifier"
    ∷ add_item "tenant" "item" "ocr_mismatch"
    ∷ add_task "b" "a" "text_verification" 50
    ∷ accept_task "b"
    ∷ complete_task "b"
    ∷ complete_task "b"
    ∷ []

script_spares : none_deletes script ≡ true
unfolding none_deletes
script_spares = refl

run-BooksBalance_example :
    let t = (run 30 script new_store).tables in
    (earned "a" t.reviewers ≡ completed_rewards "a" t.reviewer_tasks)
    × (pending "a" t.reviewers ≡ earned "a" t.reviewers)
run-BooksBalance_example = run-BooksBalance 30 script new_store script_spares (refl, refl) "a"

-- The second request to complete the task pays nothing.
script_pays_once : earned "a" (run 30 script new_store).tables.reviewers ≡ 50
unfolding run act create_reviewer create_hitl_item create_reviewer_task accept_reviewer_task
    complete_reviewer_task statement transaction ◌>>=◌ find set_row update_row is_some
script_pays_once = refl

-- When the invoice is read again, the task is deleted, and the reviewer keeps the reward.
cleared_pays :
    let t = (run 30 (script ++ clear_items "invoice" ∷ []) new_store).tables in
    (earned "a" t.reviewers ≡ 50) × (completed_rewards "a" t.reviewer_tasks ≡ 0)
unfolding run act create_reviewer create_hitl_item create_reviewer_task accept_reviewer_task
    complete_reviewer_task statement transaction ◌>>=◌ find set_row update_row is_some
    delete_invoice_items_by_invoice_id delete_rows exists completed_rewards
cleared_pays = (refl, refl)

run-earned_example :
    let t = (run 30 (script ++ clear_items "invoice" ∷ []) new_store).tables in
    (completed_rewards "a" t.reviewer_tasks ≤ earned "a" t.reviewers)
    × (pending "a" t.reviewers ≡ earned "a" t.reviewers)
run-earned_example = run-earned 30 (script ++ clear_items "invoice" ∷ []) new_store (refl, refl) "a"

abbrev task : ReviewerTask
task = record {
  id = "b";
  hitl_queue_id = "b";
  reviewer_id = "a";
  task_type = "text_verification";
  status = "completed";
  reward_amount = 50;
  sent_at = 10;
  accepted_at = some 20;
  completed_at = some 30;
  expired_at = some 1000;
  created_at = 10;
  updated_at = 30;
}

abbrev reviewer : Reviewer
reviewer = record {
  id = "a";
  name = "Nok";
  line_user_id = "line-1";
  reviewer_type = "text_verifier";
  status = "active";
  total_earned = 50;
  pending_payout = 50;
  created_at = 1;
  updated_at = 30;
}

abbrev item : HitlQueueItem
item = record {
  id = "b";
  tenant_id = "tenant";
  invoice_item_id = "item";
  reason = "ocr_mismatch";
  status = "pending";
  resolved_by = "";
  created_at = 5;
  updated_at = 5;
}

abbrev later_store : Store
later_store = record new_store {
  tables = record one_invoice {
    reviewers = reviewer ∷ [];
    reviewer_tasks = task ∷ [];
    hitl_queue = item ∷ [];
  };
}

abbrev again : List Action
again = wait 5000 ∷ check_expiry ∷ accept_task "b" ∷ []

task_found : find "b" later_store.tables.reviewer_tasks ≡ some task
unfolding find
task_found = refl

again_spares : none_deletes again ≡ true
unfolding none_deletes
again_spares = refl

run-Stands_example : find "b" (run 30 again later_store).tables.reviewer_tasks ≡ some task
run-Stands_example = run-Stands 30 again later_store "b" task again_spares task_found (inl refl)

handle_complete_reviewer_task_settled_example :
    (handle_complete_reviewer_task "b" (run 30 again later_store)).0
    ≡ ok (record { status = 404; body = none })
handle_complete_reviewer_task_settled_example =
    handle_complete_reviewer_task_settled 30 again later_store "b" task again_spares task_found
      (inl refl)

next_reviewer_round_robin_lem_example :
    ((r : Reviewer)
      → (next_reviewer_round_robin "text_verifier" later_store).0 ≡ ok r
      → IsLeast
          (is_available "text_verifier")
          (λ x. last_sent later_store.tables.reviewer_tasks x.id)
          later_store.tables.reviewers
          r)
    × ((next_reviewer_round_robin "text_verifier" later_store).0 ≡ err not_found
        → All (λ x. is_available "text_verifier" x ≡ false) later_store.tables.reviewers)
next_reviewer_round_robin_lem_example = next_reviewer_round_robin_lem "text_verifier" later_store

abbrev resolved : HitlQueueItem
resolved = record item { status = "resolved"; resolved_by = "u"; updated_at = 100 }

resolve_item_ok : (resolve_hitl_item "b" "u" later_store).0 ≡ ok resolved
unfolding resolve_hitl_item statement update_row find set_row is_some
resolve_item_ok = refl

resolve_hitl_item_lem_example :
    (resolved.status ≡ "resolved")
    × (resolved.resolved_by ≡ "u")
    × (find "b" (resolve_hitl_item "b" "u" later_store).1.tables.hitl_queue ≡ some resolved)
    × ((j : String)
        → ("b" =ₛ j) ≢ true
        → find j (resolve_hitl_item "b" "u" later_store).1.tables.hitl_queue
          ≡ find j later_store.tables.hitl_queue)
resolve_hitl_item_lem_example = resolve_hitl_item_lem "b" "u" later_store resolved resolve_item_ok

reject_hitl_item_never_ok_example : (reject_hitl_item "b" later_store).0 ≢ ok item
reject_hitl_item_never_ok_example = reject_hitl_item_never_ok "b" later_store item

abbrev newer : HitlQueueItem
newer = record item { id = "c"; created_at = 9 }

abbrev two_items : Store
two_items = record new_store { tables = record one_invoice { hitl_queue = item ∷ newer ∷ [] } }
