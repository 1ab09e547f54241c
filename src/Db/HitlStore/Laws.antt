-- ===== src/Db/HitlStore/Laws.antt =====
-- What becomes of an item of the review queue.
use tax_ocr.Prelude.{
  ℕ, String, ◌=ₛ◌, ◌≡◌, ◌≢◌, refl, sym, ap, ◌∙◌, true, Option, none, some, List, arith, ◌||◌, not,
  subst, Bool-cases, inl, inr, ◌++◌, [], ◌∷◌,
}
use tax_ocr.Db.Types.{HitlQueueItem}
use tax_ocr.Db.Rows.{find, update_row, update_row_changed, update_row_found}
use tax_ocr.Db.Monad.{ok, Tables, Store}
use tax_ocr.Db.Monad.Keeps.{
  ok_tables, Keeps, Keeps-raise, Keeps-new_id, Keeps-bind, Keeps-statement,
}
use tax_ocr.Db.Monad.Returns.{statement_ok}
use tax_ocr.Db.ReviewerStore.{hitl_keyed, is_some}
use tax_ocr.Db.Keys.{refers, item_keyed}
use tax_ocr.Db.TenantStore.{tenant_keyed}
use tax_ocr.Db.ReviewerStore.Settled.{row_or_not_found_same}
use tax_ocr.Db.HitlStore.{
  get_hitl_item, store_hitl, hitl_allowed, reject, resolve, reject_hitl_item, resolve_hitl_item,
  insert_hitl, create_hitl_item, new_hitl,
}

store_hitl_ok :
    (o : Option (HitlQueueItem × List HitlQueueItem)) (t t' : Tables) (a : HitlQueueItem)
    → store_hitl o t ≡ ok (a, t')
    → (o ≡ some (a, t'.hitl_queue))
      × (hitl_allowed a ≡ true)
      × (t' ≡ record t { hitl_queue = t'.hitl_queue })
unfolding store_hitl
store_hitl_ok none t t' a e = cc
store_hitl_ok (some (x, xs)) t t' a e = ground arith

rejected_refused : (now : ℕ) (h : HitlQueueItem) → hitl_allowed (reject now h) ≢ true
unfolding hitl_allowed reject
rejected_refused now h e = cc

-- An item cannot be rejected: the status 'rejected' is one that the table does not admit, so
-- whatever the item, no call returns it.
pub reject_hitl_item_never_ok :
    (id : String) (s : Store) (h : HitlQueueItem) → (reject_hitl_item id s).0 ≢ ok h
unfolding reject_hitl_item
reject_hitl_item_never_ok id s h e =
    let (row, allowed, same) = store_hitl_ok _ s.tables _ h (statement_ok _ s h e) in
    let (x, found, p, is, table) =
      update_row_changed id (λ z. true) (reject s.now) s.tables.hitl_queue h _ row in
    rejected_refused s.now x (ap hitl_allowed (sym is) ∙ allowed)

-- An item that is resolved is then found resolved, with the one who resolved it, and every other
-- item is as it was.
pub resolve_hitl_item_lem :
    (id resolved_by : String) (s : Store) (h : HitlQueueItem)
    → (resolve_hitl_item id resolved_by s).0 ≡ ok h
    → (h.status ≡ "resolved")
      × (h.resolved_by ≡ resolved_by)
      × (find id (resolve_hitl_item id resolved_by s).1.tables.hitl_queue ≡ some h)
      × ((j : String)
          → (id =ₛ j) ≢ true
          → find j (resolve_hitl_item id resolved_by s).1.tables.hitl_queue
            ≡ find j s.tables.hitl_queue)
unfolding resolve_hitl_item
resolve_hitl_item_lem id resolved_by s h e =
    let f = resolve s.now resolved_by in
    let (row, allowed, same) = store_hitl_ok _ s.tables _ h (statement_ok _ s h e) in
    let (x, found, p, is, table) =
      update_row_changed id (λ z. true) f s.tables.hitl_queue h _ row in
    let (now_found, others) =
      update_row_found id (λ z. true) f s.tables.hitl_queue h _ (λ z. refl) row in
    (rw is, rw is, now_found, others)

module _ {P : Tables → Type 0}
    (free : (t : Tables) (hs : List HitlQueueItem) → P t → P (record t { hitl_queue = hs })) where
  insert_hitl-keeps :
      (h : HitlQueueItem) (t t' : Tables) (a : HitlQueueItem)
      → P t
      → insert_hitl h t ≡ ok (a, t')
      → P t'
  unfolding insert_hitl
  insert_hitl-keeps h t t' a p e =
      elim (Bool-cases (
        is_some (find h.id t.hitl_queue)
        || not (refers h.tenant_id t.tenants)
        || not (refers h.invoice_item_id t.invoice_items))) [
          | inl q ↦ absurd (ground arith)
          | inr q ↦ subst P (ok_tables h a _ t' (rw q at e)) (free t (t.hitl_queue ++ h ∷ []) p)
        ]

  pub create_hitl_item-keeps :
      (tenant_id invoice_item_id reason : String)
      → Keeps P (create_hitl_item tenant_id invoice_item_id reason)
  unfolding create_hitl_item
  create_hitl_item-keeps tenant_id invoice_item_id reason =
      elim (Bool-cases (tenant_id =ₛ "" || invoice_item_id =ₛ "")) [
        | inl e ↦ rw e (Keeps-raise _)
        | inr e ↦ rw e (
            Keeps-bind Keeps-new_id λ new. Keeps-statement _ λ now t a t' p q.
              insert_hitl-keeps (new_hitl now new tenant_id invoice_item_id reason) t t' a p q)
      ]

  store_hitl-keeps :
      (o : Option (HitlQueueItem × List HitlQueueItem)) (t t' : Tables) (a : HitlQueueItem)
      → P t
      → store_hitl o t ≡ ok (a, t')
      → P t'
  store_hitl-keeps o t t' a p e =
      let (_, _, same) = store_hitl_ok o t t' a e in rw same (free t t'.hitl_queue p)

  pub resolve_hitl_item-keeps :
      (id resolved_by : String) → Keeps P (resolve_hitl_item id resolved_by)
  unfolding resolve_hitl_item
  resolve_hitl_item-keeps id resolved_by = Keeps-statement _ λ now t a t' p e.
      store_hitl-keeps (update_row id (λ h. true) (resolve now resolved_by) t.hitl_queue) t t' a p e

  pub reject_hitl_item-keeps : (id : String) → Keeps P (reject_hitl_item id)
  unfolding reject_hitl_item
  reject_hitl_item-keeps id = Keeps-statement _ λ now t a t' p e.
      store_hitl-keeps (update_row id (λ h. true) (reject now) t.hitl_queue) t t' a p e

  pub get_hitl_item-keeps : (id : String) → Keeps P (get_hitl_item id)
  unfolding get_hitl_item
  get_hitl_item-keeps id =
      Keeps-statement _ λ now t a t' p e. subst P (row_or_not_found_same _ t t' a e) p
