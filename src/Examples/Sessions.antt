-- ===== src/Examples/Sessions.antt =====
-- A user who logs in, a company that is set up, and the guard.
use tax_ocr.Prelude.{
  ltb, ◌==◌, ◌≡◌, refl, ap, Bool, true, false, ◌&&◌, if◌then◌else◌, String, ◌=ₛ◌, Text, ◌=ₜ◌,
  =ₜ_iff, runes, is_empty, none, some, [], ◌∷◌, ◌++◌, Bool-cases, inl, inr, arith, eq_iff,
}
use mathlib.Core.Option.{some-injective}
use tax_ocr.Db.Types.{User, Tenant}
use tax_ocr.Db.Rows.{find, exists}
use tax_ocr.Db.Monad.{Result, ok, Store, statement, ◌>>=◌, no_rows}
use tax_ocr.Db.ReviewerStore.{is_some}
use tax_ocr.Db.TenantStore.{tenant_keyed, get_tenant, create_tenant}
use tax_ocr.Db.UserStore.{first_row, get_user_by_email, has_any_user, create_user}
use tax_ocr.Api.ReviewerHandlers.{Response}
use tax_ocr.Api.Auth.{
  Payload, Claims, Crypto, Session, LoginBody, SetupBody, issue_token, issue_refresh_token,
  parse_token, login, setup,
}
use tax_ocr.Api.Auth.Laws.{
  IsJwt, claims_of_user, LoggedIn, parse_token-issue_refresh_token, login_ok,
}
use tax_ocr.Api.Auth.Setup.{setup_once}
use tax_ocr.Api.Router.{guarded, TenantBody, handle_create_tenant}
use tax_ocr.Api.Router.Laws.{guarded_suspended, handle_create_tenant_duplicate}
use tax_ocr.Examples.Rows.{company, clerk, one_invoice}

abbrev same : Payload → Payload → Bool
same p q =
    p.user_id =ₛ q.user_id
    && p.tenant_id =ₛ q.tenant_id
    && p.name =ₛ q.name
    && p.role =ₛ q.role
    && p.kind =ₛ q.kind
    && p.expires_at == q.expires_at
    && p.issued_at == q.issued_at

-- The library of one token.
abbrev crypto : Payload → Crypto
crypto p = record {
  sign = λ q. if same q p then some (1 ∷ []) else none;
  parse = λ now token. if token =ₜ 1 ∷ [] && ltb now p.expires_at then some p else none;
  generate_from_password = λ password. some "hash";
  compare_hash_and_password = λ hash password. hash =ₛ "hash" && password =ₛ "secret";
}

same_self : (p : Payload) → same p p ≡ true
same_self p = ground (
  arith,
  eq_iff p.user_id p.user_id,
  eq_iff p.tenant_id p.tenant_id,
  eq_iff p.name p.name,
  eq_iff p.role p.role,
  eq_iff p.kind p.kind,
)

same_eq : (p q : Payload) → same p q ≡ true → p ≡ q
same_eq p q h = ground (
  arith,
  h,
  eq_iff p.user_id q.user_id,
  eq_iff p.tenant_id q.tenant_id,
  eq_iff p.name q.name,
  eq_iff p.role q.role,
  eq_iff p.kind q.kind,
)

abbrev access : Payload
access = record {
  user_id = "u";
  tenant_id = "tenant";
  name = "Nok";
  role = "admin";
  kind = "";
  expires_at = 3700;
  issued_at = 100;
}

abbrev renewal : Payload
renewal = record {
  user_id = "u";
  tenant_id = "tenant";
  name = "";
  role = "";
  kind = "refresh";
  expires_at = 604900;
  issued_at = 100;
}

IsJwt-crypto : (p : Payload) → IsJwt (crypto p)
IsJwt-crypto p = record {
  opens = λ q token now signed soon. elim (Bool-cases (same q p)) [
    | inl e ↦
        let one = some-injective (1 ∷ []) token (rw e at signed) in
        rw (← one) (
          ground (
            arith,
            =ₜ_iff (1 ∷ []) (1 ∷ []),
            same_eq q p e,
            ap (λ (x : Payload). x.expires_at) (same_eq q p e),
            soon,
          ))
    | inr e ↦ absurd (ground (arith, rw e at signed))
  ];
}

abbrev token : Text
token = 1 ∷ []

token_issued : issue_token (crypto access) 100 clerk ≡ some token
unfolding issue_token
token_issued = refl

refresh_token_issued : issue_refresh_token (crypto renewal) 100 clerk ≡ some token
unfolding issue_refresh_token
refresh_token_issued = refl

parse_token-issue_refresh_token_example :
    parse_token (crypto renewal) 500000 token
    ≡ some (record (claims_of_user clerk) { name = ""; role = "" })
parse_token-issue_refresh_token_example =
    parse_token-issue_refresh_token (crypto renewal) (IsJwt-crypto renewal) 100 500000 clerk token
      refresh_token_issued (omega arith)

-- A library that signs whatever it is given.
abbrev lax : Crypto
lax = record (crypto access) { sign = λ p. some (1 ∷ []) }

abbrev start : Store
start = record {
  tables = one_invoice;
  now = 100;
  uuid = λ n. "new";
  serial = 0;
  invoice_numbers = 1;
  faults = [];
  outbox = [];
}

abbrev credentials : LoginBody
credentials = record { email = "nok@example.com"; password = "secret" }

abbrev session : Session
session = record { token = token; refresh_token = token; user = clerk }

abbrev welcome : Response Session
welcome = record { status = 200; body = some session }

clerk_logs_in : (login lax true (some credentials) start).0 ≡ ok welcome
unfolding login get_user_by_email get_tenant statement first_row find ◌>>=◌ issue_token
    issue_refresh_token
clerk_logs_in = refl

login_ok_example : LoggedIn lax credentials start welcome
login_ok_example = login_ok lax true credentials start welcome refl clerk_logs_in refl

abbrev first_company : SetupBody
first_company = record {
  tenant_name = runes "Somchai Co";
  tax_id = runes "0105551234567";
  name = "Nok";
  email = "nok@example.com";
  password = "secret";
}

abbrev nothing_there : Store
nothing_there = record start { tables = no_rows }

abbrev admin : User
admin = record clerk {
  id = "new";
  tenant_id = "new";
  line_user_id = "";
  created_at = 100;
  updated_at = 100;
}

abbrev created : Response Session
created = record {
  status = 201;
  body = some (record { token = token; refresh_token = token; user = admin });
}

company_is_set_up : (setup lax (some first_company) nothing_there).0 ≡ ok created
unfolding setup has_any_user create_tenant create_user statement exists find is_some is_empty ◌>>=◌
    issue_token issue_refresh_token
company_is_set_up = refl

setup_once_example :
    let after = (setup lax (some first_company) nothing_there).1 in
    (setup lax none after).1.tables ≡ after.tables
setup_once_example =
    setup_once lax (some first_company) none nothing_there
      (setup lax (some first_company) nothing_there).1 created company_is_set_up refl refl

abbrev closed : Store
closed = record start {
  tables = record one_invoice { tenants = record company { status = "suspended" } ∷ [] };
}

opens_token : parse_token lax 100 token ≡ some (claims_of_user clerk)
unfolding parse_token ◌=ₜ◌
opens_token = refl

closed_found : find "tenant" closed.tables.tenants ≡ some (record company { status = "suspended" })
unfolding find
closed_found = refl

-- The handler would answer with the role.
abbrev tells_role : Claims → Store → Result (Response String) × Store
tells_role claims s = (ok (record { status = 200; body = some claims.role }), s)

guarded_suspended_example :
    guarded lax (runes "Bearer " ++ token) tells_role closed
    ≡ (ok (record { status = 403; body = none }), closed)
guarded_suspended_example =
    guarded_suspended lax token tells_role closed (claims_of_user clerk)
      (record company { status = "suspended" }) refl opens_token refl closed_found refl

abbrev again : TenantBody
again = record {
  name = runes "Somchai Co";
  tax_id = runes "0105551234567";
  business_type = "";
  address = [];
}

company_is_there : exists (λ (t : Tenant). t.tax_id =ₜ again.tax_id) start.tables.tenants ≡ true
unfolding exists ◌=ₜ◌
company_is_there = refl

is_named : is_empty again.name ≡ false
unfolding is_empty
is_named = refl

is_numbered : is_empty again.tax_id ≡ false
unfolding is_empty
is_numbered = refl

handle_create_tenant_duplicate_example :
    ((handle_create_tenant (some again) start).0 ≡ ok (record { status = 409; body = none }))
    × ((handle_create_tenant (some again) start).1.tables ≡ start.tables)
handle_create_tenant_duplicate_example =
    handle_create_tenant_duplicate again start refl is_named is_numbered refl refl refl
      company_is_there
