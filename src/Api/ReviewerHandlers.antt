-- ===== src/Api/ReviewerHandlers.antt =====
-- backend/internal/api/reviewer_handler.go and hitl_handler.go: the handlers that change something,
-- from the request's body, `none` where readJSON fails, to the status and the data of the response.
pub mod Laws
use tax_ocr.Prelude.{ℕ, String, Option, none, some}
use tax_ocr.Db.Types.{Reviewer, ReviewerTask, HitlQueueItem}
use tax_ocr.Db.Monad.{
  DbError, not_found, invalid_tenant, invalid_branch, invalid_user, invalid_invoice,
  invalid_reviewer, invalid_input, duplicate_tax_id, duplicate_keyword, duplicate_line_user_id,
  duplicate_invoice, query_failed, Result, ok, err, Db, pure, try, ◌>>=◌,
}
use tax_ocr.Db.ReviewerStore.{
  create_reviewer, update_reviewer, accept_reviewer_task, complete_reviewer_task,
}
use tax_ocr.Db.HitlStore.{resolve_hitl_item, reject_hitl_item}

pub record Response (A : Type 0) : Type 0 where
  pub status : ℕ
  pub body : Option A

pub record CreateReviewerBody : Type 0 where
  pub name : String
  pub line_user_id : String
  pub reviewer_type : String

pub record UpdateReviewerBody : Type 0 where
  pub name : String
  pub reviewer_type : String
  pub status : String

module _ {A : Type 0} where
  -- writeJSON where the store answers, writeError where it has an error.
  unfoldable pub answer : ℕ → (DbError → ℕ) → Result A → Response A
  answer success failure (ok a) = record { status = success; body = some a }
  answer success failure (err e) = record { status = failure e; body = none }

  unfoldable pub answering : ℕ → (DbError → ℕ) → Db A → Db (Response A)
  unfolding answer
  answering success failure m = try m >>= λ r. pure (answer success failure r)

  unfoldable pub bad_request : Db (Response A)
  bad_request = pure (record { status = 400; body = none })

-- http.StatusConflict for ErrDuplicateLineUserID
create_failure : DbError → ℕ
create_failure duplicate_line_user_id = 409
create_failure not_found = 400
create_failure invalid_tenant = 400
create_failure invalid_branch = 400
create_failure invalid_user = 400
create_failure invalid_invoice = 400
create_failure invalid_reviewer = 400
create_failure invalid_input = 400
create_failure duplicate_tax_id = 400
create_failure duplicate_keyword = 400
create_failure duplicate_invoice = 400
create_failure query_failed = 400

abbrev pub always_not_found : DbError → ℕ
always_not_found e = 404

unfoldable pub handle_create_reviewer : Option CreateReviewerBody → Db (Response Reviewer)
unfolding answer answering bad_request create_failure
handle_create_reviewer none = bad_request
handle_create_reviewer (some req) =
    answering 201 create_failure (create_reviewer req.name req.line_user_id req.reviewer_type)

unfoldable pub handle_update_reviewer :
    (id : String) → Option UpdateReviewerBody → Db (Response Reviewer)
unfolding answer answering bad_request
handle_update_reviewer id none = bad_request
handle_update_reviewer id (some req) =
    answering 200 always_not_found (update_reviewer id req.name req.reviewer_type req.status)

unfoldable pub handle_accept_reviewer_task : (id : String) → Db (Response ReviewerTask)
unfolding answer answering
handle_accept_reviewer_task id = answering 200 always_not_found (accept_reviewer_task id)

unfoldable pub handle_complete_reviewer_task : (id : String) → Db (Response ReviewerTask)
unfolding answer answering
handle_complete_reviewer_task id = answering 200 always_not_found (complete_reviewer_task id)

-- The body is the field resolved_by.
unfoldable pub handle_resolve_hitl_item :
    (id : String) → Option String → Db (Response HitlQueueItem)
unfolding answer answering bad_request
handle_resolve_hitl_item id none = bad_request
handle_resolve_hitl_item id (some resolved_by) =
    answering 200 always_not_found (resolve_hitl_item id resolved_by)

unfoldable pub handle_reject_hitl_item : (id : String) → Db (Response HitlQueueItem)
unfolding answer answering
handle_reject_hitl_item id = answering 200 always_not_found (reject_hitl_item id)
