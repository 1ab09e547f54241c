-- ===== src/Queue/Worker/Refused.antt =====
-- An invoice whose buyer is not the tenant: the status 'invalid' is never stored.
use tax_ocr.Prelude.{
  ℕ, String, ◌=ₛ◌, ◌≡◌, refl, ap, ◌∙◌, true, false, none, some, eq_iff, arith, Bool-cases, inl, inr,
}
use tax_ocr.Float.{Float64}
use tax_ocr.GoStrings.Case.{UnicodeCase}
use tax_ocr.Db.Types.{Tenant, Branch, Invoice}
use tax_ocr.Db.Rows.{find, set_row, find-set_row}
use tax_ocr.Db.Monad.{failing, later, err, not_found, Tables, Store}
use tax_ocr.Db.Keys.{invoice_keyed}
use tax_ocr.Db.TenantStore.{tenant_keyed, branch_keyed}
use tax_ocr.Db.VendorStore.{link}
use tax_ocr.Db.VendorStore.Laws.{link_invoice_vendor_changed, upsert_vendor_from_ocr-keeps}
use tax_ocr.Db.InvoiceStore.{find_duplicate_invoice}
use tax_ocr.Db.InvoiceStore.Delete.Laws.{delete_invoice_items-keeps}
use tax_ocr.Db.InvoiceStore.Update.Laws.{update_invoice_data_invalid}
use tax_ocr.Ocr.Service.{ExtractionResult}
use tax_ocr.Queue.Buyer.{validate_buyer}
use tax_ocr.Queue.Job.{ProcessInvoicePayload, Worker}
use tax_ocr.Queue.Lines.Laws.{KeptByLines}
use tax_ocr.Queue.Worker.{
  assess, buyer_verdict, reading, found, look_for_duplicate, handle_process_invoice,
}
use tax_ocr.Queue.Worker.Laws.{KeptByJob, conclude-keeps, look_for_duplicate-keeps}
use tax_ocr.Queue.Worker.Steps.{WasRead, next, verdict_at, handled_tables}

-- The invoice as it was, but for the link to its vendor.
abbrev pub AsBefore : Invoice → Invoice → Type 0
AsBefore v x = x ≡ record v { vendor_id = x.vendor_id; updated_at = x.updated_at }

abbrev pub Unread : String → Invoice → Tables → Type 0
Unread id v t = (x : Invoice) × (find id t.invoices ≡ some x) × AsBefore v x

module _ (id : String) (v : Invoice) where
  Unread-lines : KeptByLines (Unread id v)
  Unread-lines = record {
    item_free = λ t xs h. h;
    hitl_free = λ t xs h. h;
    task_free = λ t xs h. h;
    rule_free = λ t xs h. h;
    reward_free = λ t xs h. h;
  }

  linked :
      (now : ℕ) (invoice_id vendor_id : String) (t : Tables)
      → Unread id v t
      → Unread id v
          (record t { invoices = set_row invoice_id (λ z. true) (link now vendor_id) t.invoices })
  unfolding link
  linked now invoice_id vendor_id t (x, is, same) =
      let found =
        find-set_row invoice_id id (λ z. true) (link now vendor_id) t.invoices (λ z. refl) in
      elim (Bool-cases (invoice_id =ₛ id)) [
        | inl e ↦ (
          link now vendor_id x,
          found ∙ rw (e, is) refl,
          ap (λ (y : Invoice). record y { vendor_id = vendor_id; updated_at = now }) same,
        )
        | inr e ↦ (x, found ∙ rw e is, same)
      ]

  Unread-job : (invoice_id : String) → KeptByJob invoice_id (Unread id v)
  Unread-job invoice_id = record {
    import_free = λ t ds h. h;
    deletes = delete_invoice_items-keeps (λ t xs hs ts h. h) invoice_id;
    upserts = upsert_vendor_from_ocr-keeps (λ t vs h. h);
    links = λ vendor_id.
        link_invoice_vendor_changed invoice_id vendor_id
          (λ now t h. linked now invoice_id vendor_id t h);
  }

module _ (f : Float64) (u : UnicodeCase) (w : Worker f) (p : ProcessInvoicePayload) where
  -- What validate_buyer says of the reading.
  abbrev pub buyer_check : ExtractionResult f → Tenant → Branch → String × String
  buyer_check r tenant branch =
      let d = r.invoice_data in
      validate_buyer f u d.doc_type d.buyer_tax_id d.buyer_branch_code d.buyer_name tenant branch

  verdict_invalid :
      (r : ExtractionResult f) (s : Store) (tenant : Tenant) (branch : Branch)
      → find p.tenant_id s.tables.tenants ≡ some tenant
      → find p.branch_id s.tables.branches ≡ some branch
      → (buyer_check r tenant branch).0 ≡ "invalid"
      → (verdict_at f u w p r s).0 ≡ "invalid"
  unfolding verdict_at buyer_verdict assess
  verdict_invalid r s tenant branch t b e =
      rw (t, b) (ground (arith, e, eq_iff (buyer_check r tenant branch).0 "invalid"))

  -- When the buyer of an invoice that was read does not match the tenant, the queries of the tenant
  -- and the branch do not fail, and the search for a duplicate answers that there is none, the job
  -- leaves the invoice as it was but for the link to its vendor: the status, the reason and all that
  -- was read are lost, whichever of the statements after these fail.
  pub handle_process_invoice_invalid :
      (r : ExtractionResult f) (s : Store) (tenant : Tenant) (branch : Branch) (v : Invoice)
      → WasRead f u w p r
      → failing s.faults ≡ false
      → failing (later s.faults) ≡ false
      → find p.tenant_id s.tables.tenants ≡ some tenant
      → find p.branch_id s.tables.branches ≡ some branch
      → (buyer_check r tenant branch).0 ≡ "invalid"
      → (find_duplicate_invoice p.tenant_id r.invoice_data.vendor_tax_id
          r.invoice_data.invoice_doc_no p.invoice_id
          (next (next s))).0
        ≡ err not_found
      → find p.invoice_id s.tables.invoices ≡ some v
      → Unread p.invoice_id v (handle_process_invoice f u w (some p) s).1.tables
  unfolding found reading
  handle_process_invoice_invalid r s tenant branch v read first second t b invalid single is =
      let job = Unread-job p.invoice_id v p.invoice_id in
      let looked =
        (look_for_duplicate-keeps f u w p job r.invoice_data).at (next (next s)) (v, is, refl) in
      rw (handled_tables f u w p r s read first second, single)
        ((conclude-keeps f u w p job (Unread-lines p.invoice_id v) r (verdict_at f u w p r s) none (
            update_invoice_data_invalid p.invoice_id _
              (verdict_invalid r s tenant branch t b invalid))).at
          (look_for_duplicate f u w p r.invoice_data (next (next s))).1 looked)
