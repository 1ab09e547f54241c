-- ===== src/Api/Auth/Laws.antt =====
-- What a token is worth, and who gets one.
use tax_ocr.Prelude.{
  ℕ, ◌+◌, ◌*◌, ◌<◌, ◌≡◌, ◌≢◌, refl, sym, ap, ◌∙◌, Bool, true, false, ◌&&◌, String, ◌=ₛ◌, Text,
  Option, none, some, [], Bool-cases, inl, inr, arith,
}
use tax_ocr.Db.Types.{User, Tenant}
use tax_ocr.Db.Rows.{find}
use tax_ocr.Db.Monad.{Result, ok, err, Store}
use tax_ocr.Db.Monad.Returns.{try_at, time_now_at}
use tax_ocr.Db.ReviewerStore.Settled.{answer_of, row_read}
use tax_ocr.Db.TenantStore.{tenant_keyed, get_tenant}
use tax_ocr.Db.UserStore.{first_row, get_user_by_email}
use tax_ocr.Api.ReviewerHandlers.{Response}
use tax_ocr.Api.Auth.{
  Payload, Claims, Crypto, Session, LoginBody, issue_token, issue_refresh_token, parse_token,
  is_suspended, with_refresh, with_token, start_session, check_password, log_in, login,
}

-- What JWT promises: a token opens to what was signed until it expires.
pub record IsJwt (c : Crypto) : Type 0 where
  pub opens :
      (p : Payload) (token : Text) (now : ℕ)
      → c.sign p ≡ some token
      → now < p.expires_at
      → c.parse now token ≡ some p

abbrev pub claims_of_user : User → Claims
claims_of_user user = record {
  user_id = user.id;
  tenant_id = user.tenant_id;
  name = user.name;
  role = user.role;
}

module _ (c : Crypto) (jwt : IsJwt c) where
  -- With JWT as documented, for seven days the refresh token of a user is taken for an access token: it
  -- opens to claims with the user's id and tenant, and neither name nor role.
  pub parse_token-issue_refresh_token :
      (now later : ℕ) (user : User) (token : Text)
      → issue_refresh_token c now user ≡ some token
      → later < now + 7 * 24 * 3600
      → parse_token c later token ≡ some (record (claims_of_user user) { name = ""; role = "" })
  unfolding parse_token issue_refresh_token
  parse_token-issue_refresh_token now later user token issued soon =
      rw (jwt.opens _ token later issued soon) refl

-- The user who logs in with this answer.
pub record LoggedIn (c : Crypto) (req : LoginBody) (s : Store) (resp : Response Session)
    : Type 0 where
  pub user : User
  pub session : Session
  pub known :
      first_row (λ u. u.email =ₛ req.email && u.status =ₛ "active") s.tables.users ≡ some user
  pub password : c.compare_hash_and_password user.password_hash req.password ≡ true
  pub tenant_active :
      (tenant : Tenant)
      → find user.tenant_id s.tables.tenants ≡ some tenant
      → (tenant.status =ₛ "suspended") ≡ false
  pub answered : resp.body ≡ some session
  pub theirs : session.user ≡ user
  pub issued : issue_token c s.now user ≡ some session.token

abbrev status_of : Result (Response Session) → ℕ
status_of (ok r) = r.status
status_of (err e) = 0

abbrev body_of : Result (Response Session) → Option Session
body_of (ok r) = r.body
body_of (err e) = none

module _ (c : Crypto) (req : LoginBody) (s : Store) (resp : Response Session)
    (success : resp.status ≡ 200) where
  not_success : (r : Result (Response Session)) → status_of r ≢ 200 → r ≡ ok resp → ⊥
  not_success r differ e = differ (ap status_of e ∙ success)

  abbrev Started : User → Type 0
  Started user =
      (session : Session) × (resp.body ≡ some session)
      × (session.user ≡ user)
      × (issue_token c s.now user ≡ some session.token)

  with_refresh_ok :
      (user : User) (token : Text) (o : Option Text)
      → issue_token c s.now user ≡ some token
      → (with_refresh c 200 user token o s).0 ≡ ok resp
      → Started user
  unfolding with_refresh
  with_refresh_ok user token none issued e =
      absurd (not_success _ (λ q. absurd (ground (arith, q))) e)
  with_refresh_ok user token (some refresh_token) issued e = (_, sym (ap body_of e), refl, issued)

  with_token_ok :
      (user : User) (o : Option Text)
      → issue_token c s.now user ≡ o
      → (with_token c 200 s.now user o s).0 ≡ ok resp
      → Started user
  unfolding with_token
  with_token_ok user none issued e = absurd (not_success _ (λ q. absurd (ground (arith, q))) e)
  with_token_ok user (some token) issued e =
      with_refresh_ok user token (issue_refresh_token c s.now user) issued e

  start_session_ok : (user : User) → (start_session c 200 user s).0 ≡ ok resp → Started user
  unfolding start_session
  start_session_ok user e = with_token_ok user _ refl (sym (ap (λ x. x.0) (time_now_at _ s)) ∙ e)

  logged_in :
      (user : User)
      → first_row (λ u. u.email =ₛ req.email && u.status =ₛ "active") s.tables.users ≡ some user
      → c.compare_hash_and_password user.password_hash req.password ≡ true
      → ((tenant : Tenant)
          → find user.tenant_id s.tables.tenants ≡ some tenant
          → (tenant.status =ₛ "suspended") ≡ false)
      → Started user
      → LoggedIn c req s resp
  logged_in user known password active (session, answered, theirs, issued) = record {
    user = user;
    session = session;
    known = known;
    password = password;
    tenant_active = active;
    answered = answered;
    theirs = theirs;
    issued = issued;
  }

  is_suspended_read :
      (o : Option Tenant)
      → is_suspended (answer_of o) ≡ false
      → (tenant : Tenant) → o ≡ some tenant
      → (tenant.status =ₛ "suspended") ≡ false
  unfolding is_suspended
  is_suspended_read none h tenant e = absurd (ground (arith, e))
  is_suspended_read (some x) h tenant e = ground (arith, h, e)

  module _ (quiet : s.faults ≡ []) where
    tenant_read : (id : String) → get_tenant id s ≡ (answer_of (find id s.tables.tenants), s)
    unfolding get_tenant
    tenant_read id = row_read (λ t. find id t.tenants) s _ quiet refl

    check_password_ok :
        (user : User)
        → first_row (λ u. u.email =ₛ req.email && u.status =ₛ "active") s.tables.users ≡ some user
        → (check_password c req.password user s).0 ≡ ok resp
        → LoggedIn c req s resp
    unfolding check_password
    check_password_ok user known e =
        let found = find user.tenant_id s.tables.tenants in
        elim (Bool-cases (c.compare_hash_and_password user.password_hash req.password)) [
          | inr q ↦ absurd (not_success _ (λ h. absurd (ground (arith, h))) (rw q at e))
          | inl q ↦
              let step =
                sym (
                  ap (λ x. x.0)
                    (try_at (get_tenant user.tenant_id) _ s s _ (tenant_read user.tenant_id)))
                ∙ (rw q at e) in
              elim (Bool-cases (is_suspended (answer_of found))) [
                | inl g ↦ absurd (not_success _ (λ h. absurd (ground (arith, h))) (rw g at step))
                | inr g ↦
                    logged_in user known q (is_suspended_read found g)
                      (start_session_ok user (rw g at step))
              ]
        ]

    log_in_ok :
        (o : Option User)
        → first_row (λ u. u.email =ₛ req.email && u.status =ₛ "active") s.tables.users ≡ o
        → (log_in c req.password (answer_of o) s).0 ≡ ok resp
        → LoggedIn c req s resp
    unfolding log_in
    log_in_ok none known e = absurd (not_success _ (λ q. absurd (ground (arith, q))) e)
    log_in_ok (some user) known e = check_password_ok user known e

user_read :
    (email : String) (s : Store)
    → s.faults ≡ []
    → get_user_by_email email s
      ≡ (answer_of (first_row (λ u. u.email =ₛ email && u.status =ₛ "active") s.tables.users), s)
unfolding get_user_by_email
user_read email s quiet =
    row_read (λ t. first_row (λ u. u.email =ₛ email && u.status =ₛ "active") t.users) s _ quiet refl

-- Where no statement fails, a login that succeeds is of an active user with that e-mail address, whose
-- password compares and whose tenant, if it is there, is not suspended; the answer is that user's
-- token.
pub login_ok :
    (c : Crypto) (allowed : Bool) (req : LoginBody) (s : Store) (resp : Response Session)
    → s.faults ≡ []
    → (login c allowed (some req) s).0 ≡ ok resp
    → resp.status ≡ 200
    → LoggedIn c req s resp
unfolding login
login_ok c false req s resp quiet e success =
    absurd (not_success c req s resp success _ (λ q. absurd (ground (arith, q))) e)
login_ok c true req s resp quiet e success = log_in_ok c req s resp success quiet _ refl (
    sym (ap (λ x. x.0) (try_at (get_user_by_email req.email) _ s s _ (user_read req.email s quiet)))
    ∙ e)
