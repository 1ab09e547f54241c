-- ===== src/Db/ReviewerStore/Books.antt =====
-- What the reviewers have earned is what their completed tasks are worth.
pub mod Operations
use tax_ocr.Prelude.{
  ℕ, ◌+◌, String, ◌=ₛ◌, ◌≡◌, refl, sym, ap, ◌∙◌, subst, Bool, true, false, Option, none, some, List,
  ◌++◌, [], ◌∷◌, if◌then◌else◌, ◌&&◌, ◌||◌, arith, Bool-cases, inl, inr, All, All-append, All-mono,
  =ₛ_other, eq_iff, not,
}
use tax_ocr.Db.Types.{Reviewer, ReviewerTask}
use tax_ocr.Db.Rows.{
  find, set_row, update_row, update_rows, find-append, find-set_row, update_row_changed, altered,
  All-set_row, All-update_rows, All-find,
}
use tax_ocr.Db.Monad.{Result, ok, err, Tables, Store, Db, statement, ◌>>=◌, ◌>>◌, pure, transaction}
use tax_ocr.Db.Monad.Keeps.{
  ok_tables, Keeps, Keeps-pure, Keeps-raise, Keeps-new_id, Keeps-bind, Keeps-statement,
  Keeps-transaction,
}
use tax_ocr.Db.Monad.Returns.{statement_ok, bind_ok}
use tax_ocr.Db.ReviewerStore.{
  reviewer_keyed, task_keyed, hitl_keyed, is_some, insert_reviewer, has_line_user_id,
  reviewer_allowed, insert_task, task_allowed, is_open, complete, earn, is_overdue, expire, is_sent,
  accept, store_task, mark_completed, credit, complete_reviewer_task, accept_reviewer_task,
  expire_old_tasks, new_task, create_task, create_reviewer, new_reviewer, update_reviewer,
  revise_reviewer, store_reviewer,
}

abbrev earned_by : Option Reviewer → ℕ
earned_by none = 0
earned_by (some r) = r.total_earned

abbrev pending_of : Option Reviewer → ℕ
pending_of none = 0
pending_of (some r) = r.pending_payout

-- What the table says that the reviewer `id` has earned.
abbrev pub earned : String → List Reviewer → ℕ
earned id rs = earned_by (find id rs)

abbrev pub pending : String → List Reviewer → ℕ
pending id rs = pending_of (find id rs)

-- What a task is worth to the reviewer `id`.
abbrev worth : String → ReviewerTask → ℕ
worth id t = if t.reviewer_id =ₛ id && t.status =ₛ "completed" then t.reward_amount else 0

-- The rewards of the completed tasks of the reviewer `id`.
unfoldable pub completed_rewards : String → List ReviewerTask → ℕ
completed_rewards id [] = 0
completed_rewards id (t ∷ ts) = worth id t + completed_rewards id ts

-- The task is a task of a reviewer in the table.
abbrev pub IsEmployed : List Reviewer → ReviewerTask → Type 0
IsEmployed rs t = is_some (find t.reviewer_id rs) ≡ true

-- The books balance: every reviewer has earned the rewards of their completed tasks, those in the
-- table and those that were `lost` when a task was deleted; all of it is still to be paid out; and
-- every task has its reviewer.
pub record BooksBalance (lost : String → ℕ) (t : Tables) : Type 0 where
  pub paid : (id : String) → earned id t.reviewers ≡ completed_rewards id t.reviewer_tasks + lost id
  pub unpaid : (id : String) → pending id t.reviewers ≡ earned id t.reviewers
  pub employed : All (IsEmployed t.reviewers) t.reviewer_tasks

completed_rewards-append :
    (id : String) (ts us : List ReviewerTask)
    → completed_rewards id (ts ++ us) ≡ completed_rewards id ts + completed_rewards id us
unfolding completed_rewards
completed_rewards-append id [] us = omega arith
completed_rewards-append id (t ∷ ts) us = omega (arith, completed_rewards-append id ts us)

-- Completing an open task adds its reward to its reviewer's.
worth-complete :
    (id : String) (now : ℕ) (t : ReviewerTask)
    → is_open t ≡ true
    → worth id (complete now t) ≡ worth id t + (if t.reviewer_id =ₛ id then t.reward_amount else 0)
unfolding is_open complete
worth-complete id now t h = ground (
  arith,
  =ₛ_other "sent" "completed" t.status refl,
  =ₛ_other "accepted" "completed" t.status refl,
)

completed_rewards-complete :
    (id j : String) (now : ℕ) (ts : List ReviewerTask) (t : ReviewerTask)
    → find j ts ≡ some t
    → is_open t ≡ true
    → completed_rewards id (set_row j is_open (complete now) ts)
      ≡ completed_rewards id ts + (if t.reviewer_id =ₛ id then t.reward_amount else 0)
unfolding completed_rewards find set_row
completed_rewards-complete id j now [] t h g = cc
completed_rewards-complete id j now (x ∷ ts) t h g =
    ground (arith, worth-complete id now x, completed_rewards-complete id j now ts t)

worth-accept :
    (id : String) (now : ℕ) (t : ReviewerTask)
    → is_sent t ≡ true
    → worth id (accept now t) ≡ worth id t
unfolding accept is_sent
worth-accept id now t h = ground (arith, =ₛ_other "sent" "completed" t.status refl)

completed_rewards-accept :
    (id j : String) (now : ℕ) (ts : List ReviewerTask)
    → completed_rewards id (set_row j is_sent (accept now) ts) ≡ completed_rewards id ts
unfolding completed_rewards set_row
completed_rewards-accept id j now [] = refl
completed_rewards-accept id j now (x ∷ ts) =
    ground (arith, worth-accept id now x, completed_rewards-accept id j now ts)

worth-expire :
    (id : String) (now : ℕ) (t : ReviewerTask)
    → is_overdue now t ≡ true
    → worth id (expire now t) ≡ worth id t
unfolding expire is_overdue
worth-expire id now t h = ground (arith, =ₛ_other "sent" "completed" t.status refl)

completed_rewards-expire :
    (id : String) (now : ℕ) (ts : List ReviewerTask)
    → completed_rewards id (update_rows (is_overdue now) (expire now) ts).1
      ≡ completed_rewards id ts
unfolding completed_rewards update_rows
completed_rewards-expire id now [] = refl
completed_rewards-expire id now (x ∷ ts) =
    ground (arith, worth-expire id now x, completed_rewards-expire id now ts)

earned-credit :
    (id j : String) (now amount : ℕ) (rs : List Reviewer)
    → is_some (find j rs) ≡ true
    → (earned id (set_row j (λ r. true) (earn now amount) rs)
        ≡ earned id rs + (if j =ₛ id then amount else 0))
      × (pending id (set_row j (λ r. true) (earn now amount) rs)
          ≡ pending id rs + (if j =ₛ id then amount else 0))
unfolding earn is_some
earned-credit id j now amount rs h =
    rw (find-set_row j id (λ r. true) (earn now amount) rs (λ z. refl))
      (ground (arith, eq_iff j id), ground (arith, eq_iff j id))

is_some-altered :
    (guard : Reviewer → Bool) (f : Reviewer → Reviewer) (o : Option Reviewer)
    → is_some o ≡ true
    → is_some (altered guard f o) ≡ true
unfolding is_some
is_some-altered guard f none h = h
is_some-altered guard f (some r) h = refl

IsEmployed-set_row :
    (j : String) (guard : Reviewer → Bool) (f : Reviewer → Reviewer) (rs : List Reviewer)
    → ((z : Reviewer) → (f z).id ≡ z.id)
    → (t : ReviewerTask) → IsEmployed rs t
    → IsEmployed (set_row j guard f rs) t
IsEmployed-set_row j guard f rs same t h =
    rw (find-set_row j t.reviewer_id guard f rs same) (elim (Bool-cases (j =ₛ t.reviewer_id)) [
      | inl e ↦ rw e (is_some-altered guard f (find t.reviewer_id rs) h)
      | inr e ↦ rw e h
    ])

module _ {lost : String → ℕ} where
  -- Completing an open task and crediting its reviewer keeps the books.
  BooksBalance-complete :
      (t : Tables) (j : String) (now now' : ℕ) (task : ReviewerTask)
      → find j t.reviewer_tasks ≡ some task
      → is_open task ≡ true
      → (BooksBalance lost) t
      → (BooksBalance lost) (record t {
        reviewers = set_row task.reviewer_id (λ r. true) (earn now' task.reward_amount) t.reviewers;
        reviewer_tasks = set_row j is_open (complete now) t.reviewer_tasks;
      })
  unfolding earn complete
  BooksBalance-complete t j now now' task found open_task b =
      let there = All-find (IsEmployed t.reviewers) j t.reviewer_tasks task b.employed found in
      let credit_of = λ (id : String).
        earned-credit id task.reviewer_id now' task.reward_amount t.reviewers there in
      record {
        paid = λ id. omega (
          arith,
          (credit_of id).0,
          completed_rewards-complete id j now t.reviewer_tasks task found open_task,
          b.paid id,
        );
        unpaid = λ id. omega (arith, (credit_of id).0, (credit_of id).1, b.unpaid id);
        employed =
            All-mono (IsEmployed t.reviewers) _ _
              (IsEmployed-set_row task.reviewer_id (λ r. true) (earn now' task.reward_amount)
                t.reviewers (λ z. refl))
              (All-set_row (IsEmployed t.reviewers) j is_open (complete now) t.reviewer_tasks
                (λ x h. h) b.employed);
      }

store_task_ok :
    (o : Option (ReviewerTask × List ReviewerTask)) (t t' : Tables) (a : ReviewerTask)
    → store_task o t ≡ ok (a, t')
    → (o ≡ some (a, t'.reviewer_tasks)) × (t' ≡ record t { reviewer_tasks = t'.reviewer_tasks })
unfolding store_task
store_task_ok none t t' a e = cc
store_task_ok (some (x, xs)) t t' a e = ground arith

-- The body of the transaction of `complete_reviewer_task`.
complete_body : String → Db ReviewerTask
complete_body id = do
  task ← mark_completed id
  credit task.reviewer_id task.reward_amount
  pure task

mark_completed_ok :
    (j : String) (s : Store) (a : ReviewerTask)
    → (mark_completed j s).0 ≡ ok a
    → (task : ReviewerTask) × (find j s.tables.reviewer_tasks ≡ some task)
      × (is_open task ≡ true)
      × (a ≡ complete s.now task)
      × ((mark_completed j s).1.tables ≡ record (s.tables) {
        reviewer_tasks = set_row j is_open (complete s.now) s.tables.reviewer_tasks;
      })
unfolding mark_completed
mark_completed_ok j s a e =
    let (row, same) = store_task_ok _ s.tables _ a (statement_ok _ s a e) in
    let (task, found, opened, is, table) =
      update_row_changed j is_open (complete s.now) s.tables.reviewer_tasks a _ row in
    (
      task,
      found,
      opened,
      is,
      same ∙ ap (λ (ts : List ReviewerTask). record (s.tables) { reviewer_tasks = ts }) table,
    )

credit_ok :
    (j : String) (amount : ℕ) (s : Store) (u : Unit {0})
    → (credit j amount s).0 ≡ ok u
    → record (s.tables) { reviewers = set_row j (λ r. true) (earn s.now amount) s.tables.reviewers }
      ≡ (credit j amount s).1.tables
unfolding credit
credit_ok j amount s u e = ok_tables tt u _ _ (statement_ok _ s u e)

both_updates :
    (t t1 t2 : Tables) (j : String) (now now' : ℕ) (task marked : ReviewerTask)
    → t1 ≡ record t { reviewer_tasks = set_row j is_open (complete now) t.reviewer_tasks }
    → marked ≡ complete now task
    → record t1 {
      reviewers =
          set_row marked.reviewer_id (λ r. true) (earn now' marked.reward_amount) t1.reviewers;
    }
      ≡ t2
    → record t {
      reviewers = set_row task.reviewer_id (λ r. true) (earn now' task.reward_amount) t.reviewers;
      reviewer_tasks = set_row j is_open (complete now) t.reviewer_tasks;
    }
      ≡ t2
unfolding complete
both_updates t t1 t2 j now now' task marked p q r = rw (← r, p, q) refl

module _ {lost : String → ℕ} where
  complete_body-BooksBalance :
      (j : String) (s : Store) (a : ReviewerTask)
      → (BooksBalance lost) s.tables
      → (complete_body j s).0 ≡ ok a
      → (BooksBalance lost) (complete_body j s).1.tables
  unfolding complete_body
  complete_body-BooksBalance j s a b e =
      let rest = λ (t : ReviewerTask). (credit t.reviewer_id t.reward_amount >>= λ _. pure t) in
      let (marked, e1, st1, e2) = bind_ok (mark_completed j) rest s a e in
      let (task, found, opened, is, table) = mark_completed_ok j s marked e1 in
      let s1 = (mark_completed j s).1 in
      let (u, e3, st2, e4) =
        bind_ok (credit marked.reviewer_id marked.reward_amount) (λ _. pure marked) s1 a e2 in
      rw (st1, st2)
        (subst (BooksBalance lost)
          (both_updates s.tables s1.tables _ j s.now s1.now task marked table is
            (credit_ok marked.reviewer_id marked.reward_amount s1 u e3))
          (BooksBalance-complete s.tables j s.now s1.now task found opened b))
