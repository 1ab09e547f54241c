-- ===== src/Db/Listings.antt =====
-- The listings of backend/internal/db for display: ListReviewers and ListReviewerTasks of
-- reviewer_store.go, ListHitlQueue of hitl_store.go, and ListTenants, ListTrashedTenants and
-- ListBranchesByTenant of tenant_store.go.
pub mod Laws
use tax_ocr.Prelude.{
  ℕ, leb, String, ◌=ₛ◌, Bool, true, false, ◌&&◌, ◌||◌, not, if◌then◌else◌, Option, none, some, List,
  [], ◌∷◌,
}
use tax_ocr.Db.Types.{Tenant, Branch, Reviewer, ReviewerTask, HitlQueueItem}
use tax_ocr.Db.Monad.{ok, Db, statement}
use tax_ocr.Db.ReviewerStore.{is_some}

module _ {A : Type 0} where
  -- Before the first row that is not newer.
  insert_by : (A → ℕ) → A → List A → List A
  insert_by time x [] = x ∷ []
  insert_by time x (y ∷ ys) =
      let rest = insert_by time x ys in if leb (time y) (time x) then x ∷ y ∷ ys else y ∷ rest

  -- SELECT … WHERE wanted ORDER BY time DESC
  unfoldable pub newest_first : (A → Bool) → (A → ℕ) → List A → List A
  unfolding insert_by
  newest_first wanted time [] = []
  newest_first wanted time (x ∷ xs) =
      let rest = newest_first wanted time xs in if wanted x then insert_by time x rest else rest

unfoldable pub list_reviewers : Db (List Reviewer)
list_reviewers =
    statement (λ now t. ok (newest_first (λ r. true) (λ r. r.created_at) t.reviewers, t))

unfoldable pub list_reviewer_tasks : (reviewer_id : String) → Db (List ReviewerTask)
list_reviewer_tasks reviewer_id = statement λ now t.
    ok (newest_first (λ x. x.reviewer_id =ₛ reviewer_id) (λ x. x.created_at) t.reviewer_tasks, t)

-- An empty status leaves its condition out.
unfoldable pub list_hitl_queue : (tenant_id status : String) → Db (List HitlQueueItem)
list_hitl_queue tenant_id status = statement λ now t. ok (
  newest_first (λ h. h.tenant_id =ₛ tenant_id && (status =ₛ "" || h.status =ₛ status))
      (λ h. h.created_at) t.hitl_queue,
  t,
)

unfoldable pub list_tenants : Db (List Tenant)
list_tenants =
    statement
      λ now t. ok (newest_first (λ x. not (is_some x.deleted_at)) (λ x. x.created_at) t.tenants, t)

time_of : Option ℕ → ℕ
time_of none = 0
time_of (some time) = time

unfoldable pub list_trashed_tenants : Db (List Tenant)
unfolding time_of
list_trashed_tenants =
    statement λ now t.
      ok (newest_first (λ x. is_some x.deleted_at) (λ x. time_of x.deleted_at) t.tenants, t)

unfoldable pub list_branches_by_tenant : (tenant_id : String) → Db (List Branch)
list_branches_by_tenant tenant_id =
    statement
      λ now t. ok (newest_first (λ b. b.tenant_id =ₛ tenant_id) (λ b. b.created_at) t.branches, t)
