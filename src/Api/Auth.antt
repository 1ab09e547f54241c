-- ===== src/Api/Auth.antt =====
-- backend/internal/api/auth_handler.go. The JWT and bcrypt libraries are parameters; readJSON gives
-- `none` for a body that it refuses. A string of a token is walked through, so it is a Text. The
-- audit entry of a login, whose error is only logged, is left out.
pub mod Laws
pub mod Setup
use tax_ocr.Prelude.{
  ℕ, ◌+◌, ◌*◌, Bool, true, false, not, ◌||◌, if◌then◌else◌, String, ◌=ₛ◌, Text, runes, Option, none,
  some, List, [], ◌∷◌,
}
use tax_ocr.GoStrings.{has_prefix}
use tax_ocr.Db.Types.{User, Tenant}
use tax_ocr.Db.Monad.{DbError, Result, ok, err, Db, pure, try, ◌>>=◌, time_now}
use tax_ocr.Db.TenantStore.{get_tenant, create_tenant}
use tax_ocr.Db.UserStore.{
  UserInput, has_any_user, get_user_by_id, get_user_by_email, create_user, get_or_create_liff_user,
}
use tax_ocr.Api.ReviewerHandlers.{Response}

-- The JSON object of a token; a string that it lacks is empty.
pub record Payload : Type 0 where
  pub user_id : String
  pub tenant_id : String
  pub name : String
  pub role : String
  pub kind : String
  pub expires_at : ℕ
  pub issued_at : ℕ

-- The fields that the two structs take from it.
pub record Claims : Type 0 where
  pub user_id : String
  pub tenant_id : String
  pub name : String
  pub role : String

pub record RefreshClaims : Type 0 where
  pub user_id : String
  pub tenant_id : String
  pub kind : String

-- The libraries. `parse now token` is ParseWithClaims with the secret and an HMAC method.
pub record Crypto : Type 0 where
  pub sign : Payload → Option Text
  pub parse : ℕ → Text → Option Payload
  pub generate_from_password : String → Option String
  pub compare_hash_and_password : (hash password : String) → Bool

pub record Session : Type 0 where
  pub token : Text
  pub refresh_token : Text
  pub user : User

pub record LoginBody : Type 0 where
  pub email : String
  pub password : String

pub record LineLoginBody : Type 0 where
  pub line_user_id : String
  pub name : String
  pub tenant_id : String

pub record SetupBody : Type 0 where
  pub tenant_name : Text
  pub tax_id : Text
  pub name : String
  pub email : String
  pub password : String

claims_of : Payload → Claims
claims_of p = record { user_id = p.user_id; tenant_id = p.tenant_id; name = p.name; role = p.role }

refresh_claims_of : Payload → RefreshClaims
refresh_claims_of p = record { user_id = p.user_id; tenant_id = p.tenant_id; kind = p.kind }

abbrev pub replied : {A : Type 0} → ℕ → Db (Response A)
replied status = pure (record { status = status; body = none })

abbrev pub replied_with : {A : Type 0} → ℕ → A → Db (Response A)
replied_with status a = pure (record { status = status; body = some a })

is_suspended : Result Tenant → Bool
is_suspended (ok tenant) = tenant.status =ₛ "suspended"
is_suspended (err e) = false

module _ (c : Crypto) where
  unfoldable pub issue_token : (now : ℕ) → User → Option Text
  issue_token now user = c.sign (record {
    user_id = user.id;
    tenant_id = user.tenant_id;
    name = user.name;
    role = user.role;
    kind = "";
    expires_at = now + 3600;
    issued_at = now;
  })

  unfoldable pub issue_refresh_token : (now : ℕ) → User → Option Text
  issue_refresh_token now user = c.sign (record {
    user_id = user.id;
    tenant_id = user.tenant_id;
    name = "";
    role = "";
    kind = "refresh";
    expires_at = now + 7 * 24 * 3600;
    issued_at = now;
  })

  opened : Option Payload → Option Claims
  opened none = none
  opened (some p) = some (claims_of p)

  unfoldable pub parse_token : (now : ℕ) → Text → Option Claims
  unfolding opened claims_of
  parse_token now token = opened (c.parse now token)

  -- The two tokens, and the answer.
  with_refresh : ℕ → User → Text → Option Text → Db (Response Session)
  with_refresh status user token none = replied 500
  with_refresh status user token (some refresh_token) =
      replied_with status (record { token = token; refresh_token = refresh_token; user = user })

  with_token : ℕ → (now : ℕ) → User → Option Text → Db (Response Session)
  with_token status now user none = replied 500
  with_token status now user (some token) =
      with_refresh status user token (issue_refresh_token now user)

  start_session : ℕ → User → Db (Response Session)
  start_session status user = do now ← time_now; with_token status now user (issue_token now user)

  check_password : (password : String) → User → Db (Response Session)
  check_password password user =
      if not (c.compare_hash_and_password user.password_hash password) then replied 401 else do
        tenant ← try (get_tenant user.tenant_id)
        if is_suspended tenant then replied 403 else start_session 200 user

  log_in : (password : String) → Result User → Db (Response Session)
  log_in password (err e) = replied 401
  log_in password (ok user) = check_password password user

  -- `allowed` is loginLimiter.allow for the address of the request.
  unfoldable pub login : (allowed : Bool) → Option LoginBody → Db (Response Session)
  unfolding is_suspended with_refresh with_token start_session check_password log_in
  login false body = replied 429
  login true none = replied 400
  login true (some req) = do user ← try (get_user_by_email req.email); log_in req.password user

  line_session : Result User → Db (Response Session)
  line_session (err e) = replied 400
  line_session (ok user) = start_session 200 user

  unfoldable pub line_login : Option LineLoginBody → Db (Response Session)
  unfolding with_refresh with_token start_session line_session
  line_login none = replied 400
  line_login (some req) = if req.line_user_id =ₛ "" || req.tenant_id =ₛ "" then replied 400 else do
    user ← try (
        get_or_create_liff_user req.line_user_id (if req.name =ₛ "" then "LINE User" else req.name)
          req.tenant_id)
    line_session user

  admin_of : SetupBody → Tenant → String → UserInput
  admin_of req tenant hash = record {
    tenant_id = tenant.id;
    name = req.name;
    email = req.email;
    phone = "";
    line_user_id = "";
    role = "admin";
    status = "";
    password_hash = hash;
  }

  created_admin : Result User → Db (Response Session)
  created_admin (err e) = replied 500
  created_admin (ok user) = start_session 201 user

  create_admin : SetupBody → Tenant → Option String → Db (Response Session)
  create_admin req tenant none = replied 500
  create_admin req tenant (some hash) = do
    user ← try (create_user (admin_of req tenant hash))
    created_admin user

  created_company : SetupBody → Result Tenant → Db (Response Session)
  created_company req (err e) = replied 400
  created_company req (ok tenant) = create_admin req tenant (c.generate_from_password req.password)

  create_company : Option SetupBody → Db (Response Session)
  create_company none = replied 400
  create_company (some req) = do
    tenant ← try (create_tenant req.tenant_name req.tax_id "" [])
    created_company req tenant

  set_up : Option SetupBody → Result Bool → Db (Response Session)
  set_up body (err e) = replied 500
  set_up body (ok has_users) = if has_users then replied 403 else create_company body

  -- The response also has the tenant, which is that of the user.
  unfoldable pub setup : Option SetupBody → Db (Response Session)
  unfolding with_refresh with_token start_session admin_of created_admin create_admin
      created_company create_company set_up
  setup body = do has_users ← try has_any_user; set_up body has_users

  reissued : Option Text → Db (Response Text)
  reissued none = replied 500
  reissued (some token) = replied_with 200 token

  refresh_user : Result User → Db (Response Text)
  refresh_user (err e) = replied 401
  refresh_user (ok user) = do
    tenant ← try (get_tenant user.tenant_id)
    if is_suspended tenant then replied 403 else do now ← time_now; reissued (issue_token now user)

  refresh_with : Option Payload → Db (Response Text)
  refresh_with none = replied 401
  refresh_with (some p) =
      if not ((refresh_claims_of p).kind =ₛ "refresh")
      then replied 401
      else do user ← try (get_user_by_id (refresh_claims_of p).user_id); refresh_user user

  unfoldable pub refresh : (token : Option Text) → Db (Response Text)
  unfolding reissued refresh_claims_of is_suspended refresh_user refresh_with
  refresh none = replied 400
  refresh (some token) = do now ← time_now; refresh_with (c.parse now token)

  abbrev pub me : Option Claims → Response Claims
  me none = record { status = 401; body = none }
  me (some claims) = record { status = 200; body = some claims }

  drop : ℕ → Text → Text
  drop ℕ.zero s = s
  drop (ℕ.suc n) [] = []
  drop (ℕ.suc n) (x ∷ s) = drop n s

  module _ {A : Type 0} where
    with_claims : (Claims → Db (Response A)) → Option Claims → Db (Response A)
    with_claims handler none = replied 401
    with_claims handler (some claims) = handler claims

    -- The handler has the claims in its context.
    unfoldable pub auth_middleware : (header : Text) → (Claims → Db (Response A)) → Db (Response A)
    unfolding drop with_claims
    auth_middleware header handler =
        if not (has_prefix header (runes "Bearer "))
        then replied 401
        else do now ← time_now; with_claims handler (parse_token now (drop 7 header))

    unfoldable pub check_tenant_status : Claims → Db (Response A) → Db (Response A)
    unfolding is_suspended
    check_tenant_status claims handler = if claims.tenant_id =ₛ "" then handler else do
      tenant ← try (get_tenant claims.tenant_id)
      if is_suspended tenant then replied 403 else handler
