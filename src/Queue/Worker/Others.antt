-- ===== src/Queue/Worker/Others.antt =====
-- A job changes the one invoice that it is on.
use tax_ocr.Prelude.{String, ◌=ₛ◌, ◌≡◌, ◌≢◌, refl, ◌∙◌, true, some, arith}
use tax_ocr.Float.{Float64}
use tax_ocr.GoStrings.Case.{UnicodeCase}
use tax_ocr.Db.Rows.{find, find-set_row}
use tax_ocr.Db.Keys.{invoice_keyed}
use tax_ocr.Db.Monad.{Tables, Store}
use tax_ocr.Db.VendorStore.{link}
use tax_ocr.Db.VendorStore.Laws.{link_invoice_vendor_changed, upsert_vendor_from_ocr-keeps}
use tax_ocr.Db.InvoiceStore.Delete.Laws.{delete_invoice_items-keeps}
use tax_ocr.Db.InvoiceStore.Update.Laws.{OthersAsIn, update_invoice_data-kept_others}
use tax_ocr.Queue.Job.{ProcessInvoicePayload, Worker}
use tax_ocr.Queue.Lines.Laws.{KeptByLines}
use tax_ocr.Queue.Worker.{handle_process_invoice}
use tax_ocr.Queue.Worker.Laws.{KeptByJob, handle_job-keeps}

-- Every other invoice is as it was, and so are the tenants, branches, users and reviewers.
pub record OnlyThis (id : String) (before t : Tables) : Type 0 where
  pub others : OthersAsIn id before t
  pub tenants : t.tenants ≡ before.tenants
  pub branches : t.branches ≡ before.branches
  pub users : t.users ≡ before.users
  pub reviewers : t.reviewers ≡ before.reviewers

module _ (id : String) (before : Tables) where
  -- The same where these tables are the same, but for the one invoice.
  moved :
      {t t' : Tables}
      → ((j : String) → (id =ₛ j) ≢ true → find j t'.invoices ≡ find j t.invoices)
      → t'.tenants ≡ t.tenants
      → t'.branches ≡ t.branches
      → t'.users ≡ t.users
      → t'.reviewers ≡ t.reviewers
      → OnlyThis id before t
      → OnlyThis id before t'
  moved invoices tenants branches users reviewers k = record {
    others = λ j differ. invoices j differ ∙ k.others j differ;
    tenants = tenants ∙ k.tenants;
    branches = branches ∙ k.branches;
    users = users ∙ k.users;
    reviewers = reviewers ∙ k.reviewers;
  }

  OnlyThis-lines : KeptByLines (OnlyThis id before)
  OnlyThis-lines = record {
    item_free = λ t xs k. moved (λ j d. refl) refl refl refl refl k;
    hitl_free = λ t xs k. moved (λ j d. refl) refl refl refl refl k;
    task_free = λ t xs k. moved (λ j d. refl) refl refl refl refl k;
    rule_free = λ t xs k. moved (λ j d. refl) refl refl refl refl k;
    reward_free = λ t xs k. moved (λ j d. refl) refl refl refl refl k;
  }

  OnlyThis-job : KeptByJob id (OnlyThis id before)
  unfolding link
  OnlyThis-job = record {
    import_free = λ t ds k. moved (λ j d. refl) refl refl refl refl k;
    deletes =
        delete_invoice_items-keeps (λ t xs hs ts k. moved (λ j d. refl) refl refl refl refl k) id;
    upserts = upsert_vendor_from_ocr-keeps λ t vs k. moved (λ j d. refl) refl refl refl refl k;
    links = λ vendor_id. link_invoice_vendor_changed id vendor_id λ now t k.
        moved
          (λ j differ.
            find-set_row id j (λ z. true) (link now vendor_id) t.invoices (λ z. refl)
            ∙ ground (arith, differ))
          refl refl refl refl k;
  }

-- After any job, whatever was read and whichever statements fail, every invoice but the one of the job
-- is as it was, and so are the tenants, branches, users and reviewers.
pub handle_process_invoice-OnlyThis :
    (f : Float64) (u : UnicodeCase) (w : Worker f) (p : ProcessInvoicePayload) (s : Store)
    → OnlyThis p.invoice_id s.tables (handle_process_invoice f u w (some p) s).1.tables
handle_process_invoice-OnlyThis f u w p s =
    (handle_job-keeps f u w p (OnlyThis-job p.invoice_id s.tables)
        (OnlyThis-lines p.invoice_id s.tables)
        (update_invoice_data-kept_others p.invoice_id
          (λ t vs others k. moved p.invoice_id s.tables others refl refl refl refl k))).at
      s
      (record {
        others = λ j d. refl;
        tenants = refl;
        branches = refl;
        users = refl;
        reviewers = refl;
      })
