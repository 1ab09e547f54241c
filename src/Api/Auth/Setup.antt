-- ===== src/Api/Auth/Setup.antt =====
-- The first company can be set up once.
use tax_ocr.Prelude.{
  ℕ, ◌≡◌, ◌≢◌, refl, ap, ◌∙◌, Bool, true, false, String, Text, Option, none, some, arith,
}
use tax_ocr.Db.Types.{User, Tenant}
use tax_ocr.Db.Monad.{Result, ok, err, Tables, Store, ◌>>=◌}
use tax_ocr.Db.Monad.Keeps.{Keeps, Keeps-pure, Keeps-bind, Keeps-time_now}
use tax_ocr.Db.UserStore.{has_any_user}
use tax_ocr.Db.UserStore.Laws.{HasUser, has_any_user_ok, has_any_user-keeps, create_user_ok}
use tax_ocr.Api.ReviewerHandlers.{Response}
use tax_ocr.Api.Auth.{
  Crypto, Session, SetupBody, with_refresh, with_token, start_session, created_admin, create_admin,
  admin_of, created_company, create_company, set_up, setup,
}

module _ (c : Crypto) where
  set_up_refused :
      (body : Option SetupBody) (r : Result Bool) (s : Store)
      → ((b : Bool) → r ≡ ok b → b ≡ true)
      → (set_up c body r s).1.tables ≡ s.tables
  unfolding set_up
  set_up_refused body (err e) s h = refl
  set_up_refused body (ok b) s h = rw (h b refl) refl

  -- With a user in the table a request to set the company up changes nothing, whichever statements
  -- fail.
  setup_refused :
      (body : Option SetupBody) (s : Store)
      → HasUser s.tables
      → (setup c body s).1.tables ≡ s.tables
  unfolding setup ◌>>=◌
  setup_refused body s h =
      set_up_refused body (has_any_user s).0 (has_any_user s).1 (λ b e. has_any_user_ok s b h e)
      ∙ (has_any_user-keeps {P = λ t. t ≡ s.tables}).at s refl

  with_refresh-keeps :
      {P : Tables → Type 0} (status : ℕ) (user : User) (token : Text) (o : Option Text)
      → Keeps P (with_refresh c status user token o)
  unfolding with_refresh
  with_refresh-keeps status user token none = Keeps-pure _
  with_refresh-keeps status user token (some r) = Keeps-pure _

  with_token-keeps :
      {P : Tables → Type 0} (status now : ℕ) (user : User) (o : Option Text)
      → Keeps P (with_token c status now user o)
  unfolding with_token
  with_token-keeps status now user none = Keeps-pure _
  with_token-keeps status now user (some token) = with_refresh-keeps status user token _

  start_session-keeps :
      {P : Tables → Type 0} (status : ℕ) (user : User) → Keeps P (start_session c status user)
  unfolding start_session
  start_session-keeps status user =
      Keeps-bind Keeps-time_now (λ now. with_token-keeps status now user _)

  module _ (resp : Response Session) (success : resp.status ≡ 201) where
    abbrev status_of : Result (Response Session) → ℕ
    status_of (ok r) = r.status
    status_of (err e) = 0

    not_created : (r : Result (Response Session)) → status_of r ≢ 201 → r ≡ ok resp → ⊥
    not_created r differ e = differ (ap status_of e ∙ success)

    created_admin_ok :
        (r : Result User) (s : Store)
        → ((u : User) → r ≡ ok u → HasUser s.tables)
        → (created_admin c r s).0 ≡ ok resp
        → HasUser (created_admin c r s).1.tables
    unfolding created_admin
    created_admin_ok (err x) s h e = absurd (not_created _ (λ q. absurd (ground (arith, q))) e)
    created_admin_ok (ok u) s h e = (start_session-keeps {P = HasUser} 201 u).at s (h u refl)

    create_admin_ok :
        (req : SetupBody) (tenant : Tenant) (o : Option String) (s : Store)
        → (create_admin c req tenant o s).0 ≡ ok resp
        → HasUser (create_admin c req tenant o s).1.tables
    unfolding create_admin ◌>>=◌
    create_admin_ok req tenant none s e = absurd (not_created _ (λ q. absurd (ground (arith, q))) e)
    create_admin_ok req tenant (some hash) s e =
        created_admin_ok _ _ (λ u q. create_user_ok (admin_of c req tenant hash) s u q) e

    created_company_ok :
        (req : SetupBody) (r : Result Tenant) (s : Store)
        → (created_company c req r s).0 ≡ ok resp
        → HasUser (created_company c req r s).1.tables
    unfolding created_company
    created_company_ok req (err x) s e = absurd (not_created _ (λ q. absurd (ground (arith, q))) e)
    created_company_ok req (ok tenant) s e = create_admin_ok req tenant _ s e

    create_company_ok :
        (body : Option SetupBody) (s : Store)
        → (create_company c body s).0 ≡ ok resp
        → HasUser (create_company c body s).1.tables
    unfolding create_company ◌>>=◌
    create_company_ok none s e = absurd (not_created _ (λ q. absurd (ground (arith, q))) e)
    create_company_ok (some req) s e = created_company_ok req _ _ e

    set_up_ok :
        (body : Option SetupBody) (r : Result Bool) (s : Store)
        → (set_up c body r s).0 ≡ ok resp
        → HasUser (set_up c body r s).1.tables
    unfolding set_up
    set_up_ok body (err x) s e = absurd (not_created _ (λ q. absurd (ground (arith, q))) e)
    set_up_ok body (ok true) s e = absurd (not_created _ (λ q. absurd (ground (arith, q))) e)
    set_up_ok body (ok false) s e = create_company_ok body s e

-- After a request that has set the company up, any other one changes nothing, whatever its body and
-- whichever of its statements fail, as long as the users are those that the first left.
pub setup_once :
    (c : Crypto) (body body' : Option SetupBody) (s s' : Store) (resp : Response Session)
    → (setup c body s).0 ≡ ok resp
    → resp.status ≡ 201
    → s'.tables.users ≡ (setup c body s).1.tables.users
    → (setup c body' s').1.tables ≡ s'.tables
unfolding setup ◌>>=◌
setup_once c body body' s s' resp e success same =
    setup_refused c body' s' (rw same (set_up_ok c resp success body _ _ e))
