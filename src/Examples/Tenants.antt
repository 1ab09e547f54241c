-- ===== src/Examples/Tenants.antt =====
-- A tenant that is deleted and restored, and one that is deleted for good.
use tax_ocr.Prelude.{String, ◌=ₛ◌, ◌≡◌, ◌≢◌, refl, true, runes, none, some, List, [], ◌∷◌}
use tax_ocr.Db.Types.{Tenant}
use tax_ocr.Db.Rows.{exists, delete_rows, find, set_row, update_row}
use tax_ocr.Db.Monad.{ok, no_rows, Store, statement}
use tax_ocr.Db.ReviewerStore.{is_some}
use tax_ocr.Db.TenantStore.{tenant_keyed, delete_tenant, restore_tenant, permanent_delete_tenant}
use tax_ocr.Db.TenantStore.Laws.{restore_tenant-delete_tenant, permanent_delete_tenant_lem}

abbrev kept : Tenant
kept = record {
  id = "t";
  name = runes "Somchai Co";
  tax_id = runes "0105551234567";
  address = [];
  status = "active";
  business_type = "service";
  suspended_at = none;
  suspension_reason = "";
  deleted_at = none;
  created_at = 0;
  updated_at = 0;
}

abbrev store_of : List Tenant → Store
store_of tenants = record {
  tables = record no_rows { tenants = tenants };
  now = 100;
  uuid = λ n. "new";
  serial = 0;
  invoice_numbers = 1;
  faults = [];
  outbox = [];
}

abbrev before : Store
before = store_of (kept ∷ [])

abbrev trashed : Store
trashed = store_of (record kept { deleted_at = some 100; updated_at = 100 } ∷ [])

deletes : (delete_tenant "t" before).0 ≡ ok tt
unfolding delete_tenant statement update_row find set_row is_some
deletes = refl

same_tenants : trashed.tables.tenants ≡ (delete_tenant "t" before).1.tables.tenants
unfolding delete_tenant statement update_row find set_row is_some
same_tenants = refl

restores : (restore_tenant "t" trashed).0 ≡ ok tt
unfolding restore_tenant statement update_row find set_row is_some
restores = refl

restore_tenant-delete_tenant_example :
    (x : Tenant) × (find "t" before.tables.tenants ≡ some x)
    × (find "t" (restore_tenant "t" trashed).1.tables.tenants
        ≡ some (record x { updated_at = 100 }))
restore_tenant-delete_tenant_example =
    restore_tenant-delete_tenant "t" before trashed tt tt deletes same_tenants restores

removes : (permanent_delete_tenant "t" trashed).0 ≡ ok tt
unfolding permanent_delete_tenant statement find is_some exists delete_rows
removes = refl

permanent_delete_tenant_lem_example :
    ((x : Tenant) × (find "t" trashed.tables.tenants ≡ some x) × (x.deleted_at ≢ none))
    × (find "t" (permanent_delete_tenant "t" trashed).1.tables.tenants ≡ none)
    × ((j : String)
        → ("t" =ₛ j) ≢ true
        → find j (permanent_delete_tenant "t" trashed).1.tables.tenants
          ≡ find j trashed.tables.tenants)
permanent_delete_tenant_lem_example = permanent_delete_tenant_lem "t" trashed tt removes
