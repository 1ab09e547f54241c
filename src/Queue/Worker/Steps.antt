-- ===== src/Queue/Worker/Steps.antt =====
-- The steps of the handler when its first two queries do not fail, up to the search for a duplicate.
use tax_ocr.Prelude.{
  String, ◌=ₛ◌, ◌≡◌, refl, ap, ◌∙◌, ◌||◌, Option, none, some, Text, is_empty, false, Bool-cases,
  inl, inr,
}
use tax_ocr.Float.{Float64}
use tax_ocr.GoStrings.Case.{UnicodeCase}
use tax_ocr.Db.Types.{Tenant, Branch}
use tax_ocr.Db.Rows.{find}
use tax_ocr.Db.Monad.{Result, ok, Store, ◌>>=◌, Tables, failing, later, statement, not_found}
use tax_ocr.Db.Monad.Returns.{
  statement_answered, statement_denied, bind_at, then_at, try_at, time_now_at,
}
use tax_ocr.Db.ReviewerStore.{row_or_not_found}
use tax_ocr.Db.ReviewerStore.Settled.{answer_of}
use tax_ocr.Db.TenantStore.{tenant_keyed, branch_keyed, get_tenant, get_branch}
use tax_ocr.Db.InvoiceStore.{find_duplicate_invoice}
use tax_ocr.Ocr.Types.{InvoiceData}
use tax_ocr.Ocr.Service.{ExtractionResult, extract}
use tax_ocr.Queue.Buyer.{Verdict}
use tax_ocr.Queue.Dates.{parse_invoice_date}
use tax_ocr.Queue.Job.{HandlerError, ProcessInvoicePayload, Worker}
use tax_ocr.Queue.Worker.{
  assess, buyer_verdict, found, look_for_duplicate, conclude, settle, process, with_reading,
  with_file, handle_process_invoice,
}

-- The store once a query has been answered: the list says of the statements to come which of them
-- fail.
abbrev pub next : Store → Store
next s = record s { faults = later s.faults }

row_read_next :
    {A : Type 0} (rows : Tables → Option A) (s : Store) (o : Option A)
    → failing s.faults ≡ false
    → rows s.tables ≡ o
    → statement (λ now t. row_or_not_found (rows t) t) s ≡ (answer_of o, next s)
row_read_next rows s none quiet e = statement_denied _ s not_found quiet (rw e refl)
row_read_next rows s (some a) quiet e = statement_answered _ s a quiet (rw e refl)

tenant_read :
    (id : String) (s : Store) (o : Option Tenant)
    → failing s.faults ≡ false
    → find id s.tables.tenants ≡ o
    → get_tenant id s ≡ (answer_of o, next s)
unfolding get_tenant
tenant_read id s o quiet e = row_read_next (λ t. find id t.tenants) s o quiet e

branch_read :
    (id : String) (s : Store) (o : Option Branch)
    → failing s.faults ≡ false
    → find id s.tables.branches ≡ o
    → get_branch id s ≡ (answer_of o, next s)
unfolding get_branch
branch_read id s o quiet e = row_read_next (λ t. find id t.branches) s o quiet e

module _ (f : Float64) (u : UnicodeCase) (w : Worker f) (p : ProcessInvoicePayload) where
  -- The file of the invoice was downloaded and read.
  pub record WasRead (r : ExtractionResult f) : Type 0 where
    pub bytes : Text
    pub downloaded : w.download p.file_path ≡ some bytes
    pub extracted :
        extract f w.engines w.clients (record { file_bytes = bytes; content_type = p.content_type })
        ≡ some r

  -- The verdict of the checks on the tables of `s`.
  unfoldable pub verdict_at : ExtractionResult f → Store → Verdict
  verdict_at r s = assess f u w p r.matched s.now (parse_invoice_date r.invoice_data.invoice_date) (
      buyer_verdict f u w p r.invoice_data (answer_of (find p.tenant_id s.tables.tenants))
        (answer_of (find p.branch_id s.tables.branches)))

  process_at :
      (r : ExtractionResult f) (s : Store)
      → failing s.faults ≡ false
      → failing (later s.faults) ≡ false
      → process f u w p r s ≡ settle f u w p r (verdict_at r s) (next (next s))
  unfolding process verdict_at
  process_at r s first second =
      try_at (get_tenant p.tenant_id) _ s (next s) _ (tenant_read p.tenant_id s _ first refl)
      ∙ try_at (get_branch p.branch_id) _ (next s) (next (next s)) _
          (branch_read p.branch_id (next s) _ second refl)
      ∙ time_now_at _ (next (next s))

  -- What the search finds among the invoices.
  look_for_duplicate_value :
      (d : InvoiceData f.F) (s : Store)
      → (look_for_duplicate f u w p d s).0
        ≡ ok (
            found f u w p
              (find_duplicate_invoice p.tenant_id d.vendor_tax_id d.invoice_doc_no p.invoice_id
                s).0)
  unfolding look_for_duplicate find_duplicate_invoice ◌>>=◌ found
  look_for_duplicate_value d s =
      elim (Bool-cases (is_empty d.vendor_tax_id || is_empty d.invoice_doc_no)) [
        | inl e ↦ elim (Bool-cases (p.tenant_id =ₛ "")) [
          | inl t ↦ rw (e, t) refl
          | inr t ↦ rw t (rw e refl)
        ]
        | inr e ↦ rw e refl
      ]

  -- The tables that the job leaves are those that `conclude` leaves.
  pub handled_tables :
      (r : ExtractionResult f) (s : Store)
      → WasRead r
      → failing s.faults ≡ false
      → failing (later s.faults) ≡ false
      → (handle_process_invoice f u w (some p) s).1.tables
        ≡ (conclude f u w p r
            (verdict_at r s)
            (found f u w p
              (find_duplicate_invoice p.tenant_id r.invoice_data.vendor_tax_id
                r.invoice_data.invoice_doc_no p.invoice_id
                (next (next s))).0)
            (look_for_duplicate f u w p r.invoice_data (next (next s))).1).1.tables
  unfolding handle_process_invoice with_file with_reading settle
  handled_tables r s read first second =
      ap (λ (o : Option Text). (with_file f u w p o s).1.tables) read.downloaded
      ∙ ap (λ (o : Option (ExtractionResult f)). (with_reading f u w p o s).1.tables) read.extracted
      ∙ ap (λ (x : Store). x.tables) (then_at {B = Option HandlerError} (process f u w p r) none s)
      ∙ ap (λ (x : Result (Unit {0}) × Store). x.1.tables)
          (process_at r s first second
            ∙ bind_at (look_for_duplicate f u w p r.invoice_data) _ (next (next s)) _
                (look_for_duplicate_value r.invoice_data (next (next s))))
