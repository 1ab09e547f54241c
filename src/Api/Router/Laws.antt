-- ===== src/Api/Router/Laws.antt =====
-- The guard, and the answer to a request for a company that is there already.
use tax_ocr.Prelude.{
  ◌≡◌, refl, ◌∙◌, true, false, ◌=ₛ◌, Text, ◌=ₜ◌, runes, is_empty, none, some, [], ◌++◌,
}
use tax_ocr.GoStrings.{has_prefix}
use tax_ocr.Db.Types.{Tenant}
use tax_ocr.Db.Rows.{find, exists}
use tax_ocr.Db.Monad.{ok, Store, Db, ◌>>=◌}
use tax_ocr.Db.Monad.Returns.{try_at, time_now_at}
use tax_ocr.Db.ReviewerStore.Settled.{row_read}
use tax_ocr.Db.TenantStore.{tenant_keyed, get_tenant}
use tax_ocr.Db.Keys.{fits}
use tax_ocr.Db.TenantStore.Laws.{create_tenant_duplicate}
use tax_ocr.Api.ReviewerHandlers.{Response, answer, answering}
use tax_ocr.Api.Auth.{Crypto, Claims, parse_token, auth_middleware, check_tenant_status}
use tax_ocr.Api.Router.{guarded, TenantBody, handle_create_tenant}

-- A request whose token is of a suspended tenant is answered with 403, whichever handler it is for,
-- and nothing is changed, where no statement fails.
pub guarded_suspended :
    {A : Type 0} (c : Crypto) (token : Text) (handler : Claims → Db (Response A)) (s : Store)
    (claims : Claims) (tenant : Tenant)
    → s.faults ≡ []
    → parse_token c s.now token ≡ some claims
    → (claims.tenant_id =ₛ "") ≡ false
    → find claims.tenant_id s.tables.tenants ≡ some tenant
    → tenant.status ≡ "suspended"
    → guarded c (runes "Bearer " ++ token) handler s
      ≡ (ok (record { status = 403; body = none }), s)
unfolding guarded auth_middleware check_tenant_status has_prefix get_tenant
guarded_suspended c token handler s claims tenant quiet opens named found suspended =
    time_now_at _ s
    ∙ rw opens (
        rw named (
          try_at (get_tenant claims.tenant_id) _ s s _
            (row_read (λ t. find claims.tenant_id t.tenants) s _ quiet found)
          ∙ rw suspended refl))

-- A request to create a company with a name whose tax ID is there already, where the name, the tax ID
-- and the type of business fit their columns and no statement fails, is answered with 409, and nothing
-- is changed.
pub handle_create_tenant_duplicate :
    (req : TenantBody) (s : Store)
    → s.faults ≡ []
    → is_empty req.name ≡ false
    → is_empty req.tax_id ≡ false
    → fits 255 req.name ≡ true
    → fits 13 req.tax_id ≡ true
    → fits 20 (runes req.business_type) ≡ true
    → exists (λ (t : Tenant). t.tax_id =ₜ req.tax_id) s.tables.tenants ≡ true
    → ((handle_create_tenant (some req) s).0 ≡ ok (record { status = 409; body = none }))
      × ((handle_create_tenant (some req) s).1.tables ≡ s.tables)
unfolding handle_create_tenant answering answer ◌>>=◌
handle_create_tenant_duplicate req s quiet named numbered name_fits tax_id_fits type_fits there =
    rw
      (create_tenant_duplicate req.name req.tax_id req.business_type req.address s quiet named
        numbered name_fits tax_id_fits type_fits there)
      (refl, refl)
