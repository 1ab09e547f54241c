-- ===== src/Db/TenantStore/Laws.antt =====
-- The life of a tenant: kept or in the trash, active or suspended.
use tax_ocr.Prelude.{
  runes, Bool-cases, inl, inr, false_true, suc, Text, ◌=ₜ◌, is_empty, false, [], ◌∷◌, ℕ, String,
  ◌=ₛ◌, if◌then◌else◌, eq_iff, ◌≡◌, ◌≢◌, refl, sym, ap, ◌∙◌, Bool, true, not, Option, none, some,
  List, arith,
}
use mathlib.Core.Option.{some-injective}
use tax_ocr.Db.Types.{Tenant}
use tax_ocr.Db.Rows.{exists, delete_rows, find, update_row, update_row_changed, update_row_found}
use tax_ocr.Db.Monad.{duplicate_tax_id, ok, err, Tables, Store, statement, ◌>>=◌}
use tax_ocr.Db.Monad.Returns.{statement_ok, statement_refused}
use tax_ocr.Db.ReviewerStore.{is_some}
use tax_ocr.Db.Keys.{fits}
use tax_ocr.Db.TenantStore.{
  tenant_allowed, insert_tenant, new_tenant, create_tenant, tenant_keyed, remove, cascade,
  permanent_delete_tenant, is_kept, is_trashed, affected, trash, untrash, delete_tenant,
  restore_tenant,
}

affected_ok :
    (o : Option (Tenant × List Tenant)) (t t' : Tables) (u : Unit {0})
    → affected o t ≡ ok (u, t')
    → (x : Tenant) × (o ≡ some (x, t'.tenants))
unfolding affected
affected_ok none t t' u e = absurd (ground arith)
affected_ok (some (x, xs)) t t' u e = (x, ground arith)

-- What an UPDATE that affected a tenant has done.
affected_changed :
    (id : String) (guard : Tenant → Bool) (f : ℕ → Tenant → Tenant)
    → ((now : ℕ) (z : Tenant) → (f now z).id ≡ z.id)
    → (s : Store) (u : Unit {0})
    → (statement (λ now t. affected (update_row id guard (f now) t.tenants) t) s).0 ≡ ok u
    → (x : Tenant) × (find id s.tables.tenants ≡ some x)
      × (guard x ≡ true)
      × (find id
            (statement
              (λ now t. affected (update_row id guard (f now) t.tenants) t)
              s).1.tables.tenants
          ≡ some (f s.now x))
affected_changed id guard f same s u e =
    let (y, row) = affected_ok _ s.tables _ u (statement_ok _ s u e) in
    let (x, found, passed, is, _) =
      update_row_changed id guard (f s.now) s.tables.tenants y _ row in
    let (now_found, _) =
      update_row_found id guard (f s.now) s.tables.tenants y _ (same s.now) row in
    (x, found, passed, now_found ∙ ap some is)

not_some : (o : Option ℕ) → not (is_some o) ≡ true → o ≡ none
unfolding is_some
not_some none h = refl
not_some (some n) h = absurd (ground arith)

is_kept-none : (x : Tenant) → is_kept x ≡ true → x.deleted_at ≡ none
unfolding is_kept
is_kept-none x h = not_some x.deleted_at h

untrash-trash :
    (now before : ℕ) (x : Tenant)
    → x.deleted_at ≡ none
    → untrash now (trash before x) ≡ record x { updated_at = now }
unfolding untrash trash
untrash-trash now before x h =
    ap (λ (o : Option ℕ). record x { deleted_at = o; updated_at = now }) (sym h)

-- A tenant that is put into the trash and then restored is the tenant that it was, but for the time
-- of the last update, whatever else was done to other tables between the two.
pub restore_tenant-delete_tenant :
    (id : String) (s s' : Store) (u v : Unit {0})
    → (delete_tenant id s).0 ≡ ok u
    → s'.tables.tenants ≡ (delete_tenant id s).1.tables.tenants
    → (restore_tenant id s').0 ≡ ok v
    → (x : Tenant) × (find id s.tables.tenants ≡ some x)
      × (find id (restore_tenant id s').1.tables.tenants ≡ some (record x { updated_at = s'.now }))
unfolding delete_tenant restore_tenant trash untrash
restore_tenant-delete_tenant id s s' u v deleted same restored =
    let (x, found, kept, gone) = affected_changed id is_kept trash (λ now z. refl) s u deleted in
    let (y, there, _, back) =
      affected_changed id is_trashed untrash (λ now z. refl) s' v restored in
    let is = some-injective _ y (sym gone ∙ ap (find id) (sym same) ∙ there) in
    (
      x,
      found,
      back
          ∙ ap some
              (ap (untrash s'.now) (sym is) ∙ untrash-trash s'.now s.now x (is_kept-none x kept)),
    )

remove_ok :
    (id : String) (o : Option Tenant) (t t' : Tables) (u : Unit {0})
    → remove id o t ≡ ok (u, t')
    → (x : Tenant) × (o ≡ some x)
      × (is_trashed x ≡ true)
      × (t'.tenants ≡ delete_rows (λ z. z.id =ₛ id) t.tenants)
unfolding remove cascade
remove_ok id none t t' u e = absurd (ground arith)
remove_ok id (some x) t t' u e = (x, refl, ground arith, ground arith)

find-without :
    (id j : String) (ts : List Tenant)
    → find j (delete_rows (λ z. z.id =ₛ id) ts) ≡ (if id =ₛ j then none else find j ts)
unfolding find delete_rows
find-without id j [] = ground arith
find-without id j (t ∷ ts) =
    ground (arith, eq_iff id j, eq_iff t.id id, eq_iff t.id j, find-without id j ts)

-- A tenant is deleted for good only from the trash; it is then not found, and every other tenant is as it was.
pub permanent_delete_tenant_lem :
    (id : String) (s : Store) (u : Unit {0})
    → (permanent_delete_tenant id s).0 ≡ ok u
    → ((x : Tenant) × (find id s.tables.tenants ≡ some x) × (x.deleted_at ≢ none))
      × (find id (permanent_delete_tenant id s).1.tables.tenants ≡ none)
      × ((j : String)
          → (id =ₛ j) ≢ true
          → find j (permanent_delete_tenant id s).1.tables.tenants ≡ find j s.tables.tenants)
unfolding permanent_delete_tenant is_trashed is_some
permanent_delete_tenant_lem id s u e =
    let (x, found, trashed, table) = remove_ok id _ s.tables _ u (statement_ok _ s u e) in
    (
      (x, found, λ q. false_true (sym (ap is_some q) ∙ trashed)),
      rw (table, find-without id id s.tables.tenants) (ground (arith, eq_iff id id)),
      λ j differ. rw (table, find-without id j s.tables.tenants) (ground (arith, differ)),
    )

insert_tenant_duplicate :
    (x : Tenant) (t : Tables)
    → tenant_allowed x ≡ true
    → exists (λ (y : Tenant). y.tax_id =ₜ x.tax_id) t.tenants ≡ true
    → insert_tenant x t ≡ err duplicate_tax_id
unfolding insert_tenant
insert_tenant_duplicate x t allowed there = ground (arith, there, allowed)

new_tenant_allowed :
    (now : ℕ) (id : String) (name tax_id : Text) (business_type : String) (address : Text)
    → fits 255 name ≡ true
    → fits 13 tax_id ≡ true
    → fits 20 (runes business_type) ≡ true
    → tenant_allowed (new_tenant now id name tax_id business_type address) ≡ true
unfolding tenant_allowed new_tenant
new_tenant_allowed now id name tax_id business_type address a b c =
    elim (Bool-cases (business_type =ₛ "")) [
      | inl e ↦ rw (e, a, b) refl
      | inr e ↦ rw (e, a, b, c) refl
    ]

-- A second company with the same tax ID is refused, if the name, the tax ID and the type of business
-- fit their columns.
pub create_tenant_duplicate :
    (name tax_id : Text) (business_type : String) (address : Text) (s : Store)
    → s.faults ≡ []
    → is_empty name ≡ false
    → is_empty tax_id ≡ false
    → fits 255 name ≡ true
    → fits 13 tax_id ≡ true
    → fits 20 (runes business_type) ≡ true
    → exists (λ (y : Tenant). y.tax_id =ₜ tax_id) s.tables.tenants ≡ true
    → create_tenant name tax_id business_type address s
      ≡ (err duplicate_tax_id, record s { serial = suc s.serial })
unfolding create_tenant new_tenant ◌>>=◌
create_tenant_duplicate name tax_id business_type address s quiet named numbered a b c there =
    rw (named, numbered)
      (statement_refused
        (λ now t.
          insert_tenant (new_tenant now (s.uuid s.serial) name tax_id business_type address) t)
        (record s { serial = suc s.serial }) duplicate_tax_id quiet
        (insert_tenant_duplicate
          (new_tenant s.now (s.uuid s.serial) name tax_id business_type address) s.tables
          (new_tenant_allowed s.now (s.uuid s.serial) name tax_id business_type address a b c)
          there))
