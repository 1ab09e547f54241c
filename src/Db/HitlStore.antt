-- ===== src/Db/HitlStore.antt =====
-- backend/internal/db/hitl_store.go, with the constraints on hitl_queue of migration 009.
pub mod Laws
use tax_ocr.Prelude.{
  ℕ, String, ◌=ₛ◌, Bool, true, ◌&&◌, ◌||◌, not, if◌then◌else◌, Option, none, some, List, [], ◌∷◌,
  ◌++◌,
}
use tax_ocr.Db.Types.{HitlQueueItem}
use tax_ocr.Db.Rows.{find, update_row}
use tax_ocr.Db.Monad.{
  not_found, invalid_input, query_failed, Result, ok, err, Tables, Db, raise, statement, ◌>>=◌,
  new_id,
}
use tax_ocr.Db.ReviewerStore.{hitl_keyed, row_or_not_found, is_some}
use tax_ocr.Db.Keys.{refers, user_keyed, item_keyed}
use tax_ocr.Db.TenantStore.{tenant_keyed}

-- CHECK (status IN ('pending', 'resolved'))
hitl_allowed : HitlQueueItem → Bool
hitl_allowed h = h.status =ₛ "pending" || h.status =ₛ "resolved"

-- tenant_id REFERENCES tenants, invoice_item_id REFERENCES invoice_items
insert_hitl : HitlQueueItem → Tables → Result (HitlQueueItem × Tables)
insert_hitl h t =
    if is_some (find h.id t.hitl_queue)
      || not (refers h.tenant_id t.tenants)
      || not (refers h.invoice_item_id t.invoice_items)
    then err query_failed
    else ok (h, record t { hitl_queue = t.hitl_queue ++ h ∷ [] })

unfoldable pub get_hitl_item : String → Db HitlQueueItem
get_hitl_item id = statement (λ now t. row_or_not_found (find id t.hitl_queue) t)

new_hitl : (now : ℕ) (id tenant_id invoice_item_id reason : String) → HitlQueueItem
new_hitl now id tenant_id invoice_item_id reason = record {
  id = id;
  tenant_id = tenant_id;
  invoice_item_id = invoice_item_id;
  reason = reason;
  status = "pending";
  resolved_by = "";
  created_at = now;
  updated_at = now;
}

unfoldable pub create_hitl_item : (tenant_id invoice_item_id reason : String) → Db HitlQueueItem
unfolding new_hitl insert_hitl
create_hitl_item tenant_id invoice_item_id reason =
    if tenant_id =ₛ "" || invoice_item_id =ₛ "" then raise invalid_input else do
      id ← new_id
      statement (λ now t. insert_hitl (new_hitl now id tenant_id invoice_item_id reason) t)

-- resolved_by REFERENCES users, where an empty string is NULL
resolver_exists : HitlQueueItem → Tables → Bool
resolver_exists h t = h.resolved_by =ₛ "" || refers h.resolved_by t.users

store_hitl : Option (HitlQueueItem × List HitlQueueItem) → Tables → Result (HitlQueueItem × Tables)
store_hitl none t = err not_found
store_hitl (some (h, hs)) t =
    if hitl_allowed h && resolver_exists h t
    then ok (h, record t { hitl_queue = hs })
    else err query_failed

resolve : ℕ → String → HitlQueueItem → HitlQueueItem
resolve now resolved_by h = record h {
  status = "resolved";
  resolved_by = resolved_by;
  updated_at = now;
}

unfoldable pub resolve_hitl_item : (id resolved_by : String) → Db HitlQueueItem
unfolding resolve store_hitl hitl_allowed resolver_exists
resolve_hitl_item id resolved_by =
    statement
      λ now t. store_hitl (update_row id (λ h. true) (resolve now resolved_by) t.hitl_queue) t

reject : ℕ → HitlQueueItem → HitlQueueItem
reject now h = record h { status = "rejected"; updated_at = now }

unfoldable pub reject_hitl_item : String → Db HitlQueueItem
unfolding reject store_hitl hitl_allowed resolver_exists
reject_hitl_item id =
    statement (λ now t. store_hitl (update_row id (λ h. true) (reject now) t.hitl_queue) t)
