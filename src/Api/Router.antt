-- ===== src/Api/Router.antt =====
-- backend/internal/api/router.go: the guard that stands before every route under /api/v1 but those of
-- the login, and the handlers of the tenants, the branches and the users. A body that readJSON
-- refuses is `none`. The message of a response is left out.
pub mod Laws
use tax_ocr.Prelude.{
  ℕ, Bool, true, false, if◌then◌else◌, String, ◌=ₛ◌, Text, Option, none, some, List, [],
}
use tax_ocr.Db.Types.{Tenant, Branch, User}
use tax_ocr.Db.Monad.{
  DbError, duplicate_tax_id, invalid_tenant, Result, ok, err, Db, pure, try, ◌>>=◌,
}
use tax_ocr.Db.TenantStore.{
  get_tenant, create_tenant, update_tenant, delete_tenant, restore_tenant, permanent_delete_tenant,
  suspend_tenant, unsuspend_tenant, create_branch, update_branch,
}
use tax_ocr.Db.Listings.{list_tenants, list_trashed_tenants, list_branches_by_tenant}
use tax_ocr.Db.UserStore.{UserInput, list_users, create_user, update_user, delete_user}
use tax_ocr.Api.ReviewerHandlers.{Response, answer, answering, bad_request, always_not_found}
use tax_ocr.Api.Auth.{Crypto, Claims, auth_middleware, check_tenant_status, replied}

-- authMiddleware(api.checkTenantStatus(handler)); the audit middleware between them and the handler
-- only logs.
unfoldable pub guarded :
    {A : Type 0} → Crypto → (header : Text) → (Claims → Db (Response A)) → Db (Response A)
guarded c header handler =
    auth_middleware c header (λ claims. check_tenant_status c claims (handler claims))

always_server_error : DbError → ℕ
always_server_error e = 500

conflict_for_tax_id : DbError → ℕ
conflict_for_tax_id duplicate_tax_id = 409
conflict_for_tax_id e = 400

not_found_for_tenant : DbError → ℕ
not_found_for_tenant invalid_tenant = 404
not_found_for_tenant e = 400

pub record TenantBody : Type 0 where
  pub name : Text
  pub tax_id : Text
  pub business_type : String
  pub address : Text

pub record TenantUpdateBody : Type 0 where
  pub name : Text
  pub address : Text
  pub status : String
  pub business_type : String

pub record BranchBody : Type 0 where
  pub name : Text
  pub code : Text
  pub address : Text
  pub phone : Text

pub record BranchUpdateBody : Type 0 where
  pub name : Text
  pub address : Text
  pub phone : Text
  pub status : String

pub record UserBody : Type 0 where
  pub tenant_id : String
  pub name : String
  pub email : String
  pub phone : String
  pub line_user_id : String
  pub role : String
  pub password : String

pub record UserUpdateBody : Type 0 where
  pub name : String
  pub email : String
  pub phone : String
  pub line_user_id : String
  pub role : String
  pub status : String

unfoldable pub handle_list_tenants : Db (Response (List Tenant))
unfolding always_server_error
handle_list_tenants = answering 200 always_server_error list_tenants

unfoldable pub handle_create_tenant : Option TenantBody → Db (Response Tenant)
unfolding conflict_for_tax_id
handle_create_tenant none = bad_request
handle_create_tenant (some req) =
    answering 201 conflict_for_tax_id
      (create_tenant req.name req.tax_id req.business_type req.address)

unfoldable pub handle_get_tenant : String → Db (Response Tenant)
handle_get_tenant id = answering 200 always_not_found (get_tenant id)

unfoldable pub handle_update_tenant : (id : String) → Option TenantUpdateBody → Db (Response Tenant)
handle_update_tenant id none = bad_request
handle_update_tenant id (some req) =
    answering 200 always_not_found
      (update_tenant id req.name req.address req.status req.business_type)

unfoldable pub handle_delete_tenant : String → Db (Response (Unit {0}))
handle_delete_tenant id = answering 200 always_not_found (delete_tenant id)

unfoldable pub handle_list_trashed_tenants : Db (Response (List Tenant))
unfolding always_server_error
handle_list_trashed_tenants = answering 200 always_server_error list_trashed_tenants

unfoldable pub handle_restore_tenant : String → Db (Response (Unit {0}))
handle_restore_tenant id = answering 200 always_not_found (restore_tenant id)

unfoldable pub handle_permanent_delete_tenant : String → Db (Response (Unit {0}))
handle_permanent_delete_tenant id = answering 200 always_not_found (permanent_delete_tenant id)

-- The body is the reason.
unfoldable pub handle_suspend_tenant : (id : String) → Option String → Db (Response (Unit {0}))
handle_suspend_tenant id none = bad_request
handle_suspend_tenant id (some reason) = answering 200 always_not_found (suspend_tenant id reason)

unfoldable pub handle_unsuspend_tenant : String → Db (Response (Unit {0}))
handle_unsuspend_tenant id = answering 200 always_not_found (unsuspend_tenant id)

unfoldable pub handle_list_branches : (tenant_id : String) → Db (Response (List Branch))
handle_list_branches tenant_id = answering 200 always_not_found (list_branches_by_tenant tenant_id)

unfoldable pub handle_create_branch :
    (tenant_id : String) → Option BranchBody → Db (Response Branch)
unfolding not_found_for_tenant
handle_create_branch tenant_id none = bad_request
handle_create_branch tenant_id (some req) =
    answering 201 not_found_for_tenant
      (create_branch tenant_id req.name req.code req.address req.phone)

unfoldable pub handle_update_branch :
    (tenant_id branch_id : String) → Option BranchUpdateBody → Db (Response Branch)
handle_update_branch tenant_id branch_id none = bad_request
handle_update_branch tenant_id branch_id (some req) =
    answering 200 always_not_found
      (update_branch tenant_id branch_id req.name req.address req.phone req.status)

unfoldable pub handle_list_users : (tenant_id : String) → Db (Response (List User))
unfolding always_server_error
handle_list_users tenant_id = answering 200 always_server_error (list_users tenant_id)

user_input : UserBody → (hash : String) → UserInput
user_input req hash = record {
  tenant_id = req.tenant_id;
  name = req.name;
  email = req.email;
  phone = req.phone;
  line_user_id = req.line_user_id;
  role = req.role;
  status = "";
  password_hash = hash;
}

with_hash : UserBody → Option String → Db (Response User)
with_hash req none = replied 500
with_hash req (some hash) = answering 201 not_found_for_tenant (create_user (user_input req hash))

-- A user without a password gets one that all such users share.
unfoldable pub handle_create_user : Crypto → Option UserBody → Db (Response User)
unfolding not_found_for_tenant user_input with_hash
handle_create_user c none = bad_request
handle_create_user c (some req) =
    with_hash req
      (c.generate_from_password (if req.password =ₛ "" then "changeme" else req.password))

user_changes : UserUpdateBody → UserInput
user_changes req = record {
  tenant_id = "";
  name = req.name;
  email = req.email;
  phone = req.phone;
  line_user_id = req.line_user_id;
  role = req.role;
  status = req.status;
  password_hash = "";
}

unfoldable pub handle_update_user : (id : String) → Option UserUpdateBody → Db (Response User)
unfolding user_changes
handle_update_user id none = bad_request
handle_update_user id (some req) =
    answering 200 always_not_found (update_user id (user_changes req))

unfoldable pub handle_delete_user : String → Db (Response (Unit {0}))
handle_delete_user id = answering 204 always_not_found (delete_user id)
