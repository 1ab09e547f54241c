-- ===== src/Db/ReviewerStore.antt =====
-- backend/internal/db/reviewer_store.go, with the constraints that the migrations 016 and 017
-- declare on the two tables.
pub mod Books
pub mod Settled
pub mod RoundRobin
pub mod Free
use tax_ocr.Prelude.{
  ℕ, ◌+◌, ltb, leb, max, String, ◌=ₛ◌, Bool, true, false, ◌&&◌, ◌||◌, not, if◌then◌else◌, Option,
  none, some, List, [], ◌∷◌, ◌++◌,
}
use tax_ocr.Db.Types.{Reviewer, ReviewerTask, HitlQueueItem}
use tax_ocr.Db.Rows.{Keyed, find, set_row, update_row, update_rows}
use tax_ocr.Db.Monad.{
  DbError, not_found, invalid_input, duplicate_line_user_id, query_failed, Result, ok, err, Tables,
  Db, pure, raise, statement, ◌>>=◌, ◌>>◌, new_id, transaction,
}

instance abbrev pub reviewer_keyed : Keyed Reviewer
reviewer_keyed = record { key = λ r. r.id }

instance abbrev pub task_keyed : Keyed ReviewerTask
task_keyed = record { key = λ t. t.id }

instance abbrev pub hitl_keyed : Keyed HitlQueueItem
hitl_keyed = record { key = λ h. h.id }

-- COALESCE(NULLIF($n, ''), old)
abbrev pub unless_empty : String → String → String
unless_empty new old = if new =ₛ "" then old else new

-- The answer to a query of one row.
abbrev pub row_or_not_found : {A : Type 0} → Option A → Tables → Result (A × Tables)
row_or_not_found none t = err not_found
row_or_not_found (some a) t = ok (a, t)

has_line_user_id : String → List Reviewer → Bool
has_line_user_id line_user_id [] = false
has_line_user_id line_user_id (r ∷ rs) =
    r.line_user_id =ₛ line_user_id || has_line_user_id line_user_id rs

unfoldable pub is_some : {A : Type 0} → Option A → Bool
is_some none = false
is_some (some a) = true

-- The CHECK constraints on reviewers.
reviewer_allowed : Reviewer → Bool
reviewer_allowed r =
    (r.reviewer_type =ₛ "text_verifier" || r.reviewer_type =ₛ "classification_verifier")
    && (r.status =ₛ "active" || r.status =ₛ "inactive")

insert_reviewer : Reviewer → Tables → Result (Reviewer × Tables)
insert_reviewer r t =
    if not (reviewer_allowed r)
    then err query_failed
    else if is_some (find r.id t.reviewers) || has_line_user_id r.line_user_id t.reviewers
    then err duplicate_line_user_id
    else ok (r, record t { reviewers = t.reviewers ++ r ∷ [] })

unfoldable pub get_reviewer : String → Db Reviewer
get_reviewer id = statement (λ now t. row_or_not_found (find id t.reviewers) t)

new_reviewer : (now : ℕ) (id name line_user_id reviewer_type : String) → Reviewer
new_reviewer now id name line_user_id reviewer_type = record {
  id = id;
  name = name;
  line_user_id = line_user_id;
  reviewer_type = reviewer_type;
  status = "active";
  total_earned = 0;
  pending_payout = 0;
  created_at = now;
  updated_at = now;
}

unfoldable pub create_reviewer : (name line_user_id reviewer_type : String) → Db Reviewer
unfolding new_reviewer insert_reviewer reviewer_allowed has_line_user_id is_some
create_reviewer name line_user_id reviewer_type =
    if name =ₛ "" || line_user_id =ₛ "" || reviewer_type =ₛ "" then raise invalid_input else do
      id ← new_id
      statement (λ now t. insert_reviewer (new_reviewer now id name line_user_id reviewer_type) t)

revise_reviewer : (now : ℕ) (name reviewer_type status : String) → Reviewer → Reviewer
revise_reviewer now name reviewer_type status r = record r {
  name = unless_empty name r.name;
  reviewer_type = unless_empty reviewer_type r.reviewer_type;
  status = unless_empty status r.status;
  updated_at = now;
}

store_reviewer : Option (Reviewer × List Reviewer) → Tables → Result (Reviewer × Tables)
store_reviewer none t = err not_found
store_reviewer (some (r, rs)) t =
    if reviewer_allowed r then ok (r, record t { reviewers = rs }) else err query_failed

unfoldable pub update_reviewer : (id name reviewer_type status : String) → Db Reviewer
unfolding revise_reviewer store_reviewer reviewer_allowed
update_reviewer id name reviewer_type status = statement λ now t.
    store_reviewer
      (update_row id (λ r. true) (revise_reviewer now name reviewer_type status) t.reviewers) t

-- The CHECK constraint on reviewer_tasks and its references.
task_allowed : ReviewerTask → Tables → Bool
task_allowed task t =
    (task.task_type =ₛ "text_verification" || task.task_type =ₛ "classification_verification")
    && is_some (find task.hitl_queue_id t.hitl_queue)
    && is_some (find task.reviewer_id t.reviewers)
    && not (is_some (find task.id t.reviewer_tasks))

insert_task : ReviewerTask → Tables → Result (ReviewerTask × Tables)
insert_task task t =
    if task_allowed task t
    then ok (task, record t { reviewer_tasks = t.reviewer_tasks ++ task ∷ [] })
    else err query_failed

new_task :
    (now : ℕ) (id hitl_queue_id reviewer_id task_type : String) (reward_amount : ℕ)
    → Option ℕ
    → ReviewerTask
new_task now id hitl_queue_id reviewer_id task_type reward_amount expired_at = record {
  id = id;
  hitl_queue_id = hitl_queue_id;
  reviewer_id = reviewer_id;
  task_type = task_type;
  status = "sent";
  reward_amount = reward_amount;
  sent_at = now;
  accepted_at = none;
  completed_at = none;
  expired_at = expired_at;
  created_at = now;
  updated_at = now;
}

-- CreateReviewerTask, and CreateReviewerTaskWithExpiry where the last argument is given.
unfoldable pub create_task :
    (hitl_queue_id reviewer_id task_type : String) (reward_amount : ℕ) → Option ℕ → Db ReviewerTask
unfolding new_task insert_task task_allowed is_some
create_task hitl_queue_id reviewer_id task_type reward_amount expired_at =
    if hitl_queue_id =ₛ "" || reviewer_id =ₛ "" || task_type =ₛ "" then raise invalid_input else do
      id ← new_id
      statement λ now t.
          insert_task (new_task now id hitl_queue_id reviewer_id task_type reward_amount expired_at)
            t

unfoldable pub create_reviewer_task :
    (hitl_queue_id reviewer_id task_type : String) (reward_amount : ℕ) → Db ReviewerTask
unfolding create_task
create_reviewer_task hitl_queue_id reviewer_id task_type reward_amount =
    create_task hitl_queue_id reviewer_id task_type reward_amount none

unfoldable pub create_reviewer_task_with_expiry :
    (hitl_queue_id reviewer_id task_type : String) (reward_amount expired_at : ℕ) → Db ReviewerTask
unfolding create_task
create_reviewer_task_with_expiry hitl_queue_id reviewer_id task_type reward_amount expired_at =
    create_task hitl_queue_id reviewer_id task_type reward_amount (some expired_at)

unfoldable pub get_reviewer_task : String → Db ReviewerTask
get_reviewer_task id = statement (λ now t. row_or_not_found (find id t.reviewer_tasks) t)

-- COALESCE(MAX(t.sent_at), '1970-01-01') over the tasks of one reviewer.
unfoldable pub last_sent : List ReviewerTask → String → ℕ
last_sent [] id = 0
last_sent (t ∷ ts) id =
    let m = last_sent ts id in if t.reviewer_id =ₛ id then max t.sent_at m else m

unfoldable pub is_available : String → Reviewer → Bool
is_available reviewer_type r = r.reviewer_type =ₛ reviewer_type && r.status =ₛ "active"

-- The reviewer to be preferred to the best of those behind it; of two that were last sent a task
-- at the same time the first row is taken.
earlier : (Reviewer → ℕ) → Reviewer → Option Reviewer → Reviewer
earlier rank r none = r
earlier rank r (some best) = if leb (rank r) (rank best) then r else best

-- WHERE … ORDER BY rank ASC LIMIT 1
unfoldable pub least : (Reviewer → Bool) → (Reviewer → ℕ) → List Reviewer → Option Reviewer
unfolding earlier
least eligible rank [] = none
least eligible rank (r ∷ rs) =
    let best = least eligible rank rs in if eligible r then some (earlier rank r best) else best

unfoldable pub next_reviewer_round_robin : String → Db Reviewer
next_reviewer_round_robin reviewer_type = statement λ now t.
    row_or_not_found
      (least (is_available reviewer_type) (λ r. last_sent t.reviewer_tasks r.id) t.reviewers) t

passed : Option ℕ → ℕ → Bool
passed none now = false
passed (some deadline) now = ltb deadline now

is_overdue : ℕ → ReviewerTask → Bool
is_overdue now t = t.status =ₛ "sent" && passed t.expired_at now

expire : ℕ → ReviewerTask → ReviewerTask
expire now t = record t { status = "expired"; updated_at = now }

unfoldable pub expire_old_tasks : Db (List ReviewerTask)
unfolding passed is_overdue expire
expire_old_tasks = statement λ now t.
    let (expired, tasks) = update_rows (is_overdue now) (expire now) t.reviewer_tasks in
    ok (expired, record t { reviewer_tasks = tasks })

store_task : Option (ReviewerTask × List ReviewerTask) → Tables → Result (ReviewerTask × Tables)
store_task none t = err not_found
store_task (some (task, tasks)) t = ok (task, record t { reviewer_tasks = tasks })

is_sent : ReviewerTask → Bool
is_sent t = t.status =ₛ "sent"

accept : ℕ → ReviewerTask → ReviewerTask
accept now t = record t { status = "accepted"; accepted_at = some now; updated_at = now }

unfoldable pub accept_reviewer_task : String → Db ReviewerTask
unfolding store_task is_sent accept
accept_reviewer_task id =
    statement (λ now t. store_task (update_row id is_sent (accept now) t.reviewer_tasks) t)

is_open : ReviewerTask → Bool
is_open t = t.status =ₛ "sent" || t.status =ₛ "accepted"

complete : ℕ → ReviewerTask → ReviewerTask
complete now t = record t { status = "completed"; completed_at = some now; updated_at = now }

mark_completed : String → Db ReviewerTask
mark_completed id =
    statement (λ now t. store_task (update_row id is_open (complete now) t.reviewer_tasks) t)

earn : ℕ → ℕ → Reviewer → Reviewer
earn now amount r = record r {
  total_earned = r.total_earned + amount;
  pending_payout = r.pending_payout + amount;
  updated_at = now;
}

-- An UPDATE that finds no row is no error of Exec.
credit : String → ℕ → Db (Unit {0})
credit id amount =
    statement λ now t.
      ok (tt, record t { reviewers = set_row id (λ r. true) (earn now amount) t.reviewers })

unfoldable pub complete_reviewer_task : String → Db ReviewerTask
unfolding store_task is_open complete mark_completed earn credit
complete_reviewer_task id =
    transaction do task ← mark_completed id; credit task.reviewer_id task.reward_amount; pure task
