-- ===== src/Db/Monad.antt =====
-- The store as a state: the tables, the clock, the ids to come, and which statements will fail.
pub mod Keeps
pub mod Returns
use tax_ocr.Prelude.{ℕ, suc, String, Bool, true, false, List, [], ◌∷◌, ◌++◌, Option}
use tax_ocr.Db.Types.{
  Tenant, Branch, Reviewer, ReviewerTask, HitlQueueItem, RewardConfig, User, DocumentImport,
  Invoice, InvoiceItem, Vendor, ClassificationRule, Numeric,
}

-- The errors of store.go; `query_failed` stands for every other error of the database.
pub data DbError : Type 0 where
  not_found invalid_tenant invalid_branch invalid_user invalid_invoice invalid_reviewer
        invalid_input duplicate_tax_id duplicate_keyword duplicate_line_user_id duplicate_invoice
        query_failed :
      DbError

pub data Result {ℓ} (A : Type ℓ) : Type ℓ where
  ok : A → Result A
  err : DbError → Result A

pub record Tables : Type 0 where
  pub reviewers : List Reviewer
  pub reviewer_tasks : List ReviewerTask
  pub hitl_queue : List HitlQueueItem
  pub tenants : List Tenant
  pub branches : List Branch
  pub reward_config : List RewardConfig
  pub users : List User
  pub document_imports : List DocumentImport
  pub invoices : List Invoice
  pub invoice_items : List InvoiceItem
  pub vendors : List Vendor
  pub classification_rules : List ClassificationRule

-- The tables without a row.
abbrev pub no_rows : Tables
no_rows = record {
  reviewers = [];
  reviewer_tasks = [];
  hitl_queue = [];
  tenants = [];
  branches = [];
  reward_config = [];
  users = [];
  document_imports = [];
  invoices = [];
  invoice_items = [];
  vendors = [];
  classification_rules = [];
}

-- A LINE message to a user, with what its text is made of: to a reviewer on a task that waits, to
-- the user who sent an invoice on the outcome.
pub data Notice : Type 0 where
  task_notice : (to about item : String) (minutes : ℕ) → Notice
  done_notice : (to : String) (invoice_no : ℕ) (total : Numeric) (item_count : ℕ) → Notice
  review_notice : (to : String) (invoice_no : ℕ) → Notice

pub record Store : Type 0 where
  pub tables : Tables
  -- NOW() and time.Now()
  pub now : ℕ
  -- gen_random_uuid(): the id of the n-th row to be inserted
  pub uuid : ℕ → String
  pub serial : ℕ
  -- the sequence of invoices.invoice_no
  pub invoice_numbers : ℕ
  -- whether each of the statements to come fails; all that follow succeed
  pub faults : List Bool
  -- the messages that were pushed
  pub outbox : List Notice

abbrev pub Db : Type 0 → Type 0
Db A = Store → Result A × Store

unfoldable pub failing : List Bool → Bool
failing [] = false
failing (b ∷ rest) = b

unfoldable pub later : List Bool → List Bool
later [] = []
later (b ∷ rest) = rest

module _ {A : Type 0} where
  abbrev pub pure : A → Db A
  pure a s = (ok a, s)

  abbrev pub raise : DbError → Db A
  raise e s = (err e, s)

  -- Go's `a, err := m`, after which the caller looks at `err`.
  abbrev pub try : Db A → Db (Result A)
  try m s = let (r, s') = m s in (ok r, s')

  answer : Store → Result (A × Tables) → Result A × Store
  answer s (ok (a, t)) = (ok a, record s { tables = t })
  answer s (err e) = (err e, s)

  next_statement : Bool → (ℕ → Tables → Result (A × Tables)) → Store → Result A × Store
  next_statement true q s = (err query_failed, s)
  next_statement false q s = answer s (q s.now s.tables)

  -- One SQL statement. If it fails it has no effect.
  unfoldable pub statement : (ℕ → Tables → Result (A × Tables)) → Db A
  unfolding next_statement answer failing later
  statement q s = next_statement (failing s.faults) q (record s { faults = later s.faults })

module _ {A B : Type 0} where
  abbrev pub continue : Result A → (A → Db B) → Db B
  continue (ok a) f s = f a s
  continue (err e) f s = (err e, s)

  infixl 10 ◌>>=◌ ◌>>◌
  unfoldable pub ◌>>=◌ : Db A → (A → Db B) → Db B
  ◌>>=◌ m f s = let (r, s') = m s in continue r f s'

  abbrev pub ◌>>◌ : Db A → Db B → Db B
  m >> n = m >>= λ _. n

-- The id of the row that an INSERT will write.
abbrev pub new_id : Db String
new_id s = (ok (s.uuid s.serial), record s { serial = suc s.serial })

-- nextval, which a rollback leaves as it is
abbrev pub next_invoice_no : Db ℕ
next_invoice_no s = (ok s.invoice_numbers, record s { invoice_numbers = suc s.invoice_numbers })

abbrev pub time_now : Db ℕ
time_now s = (ok s.now, s)

-- LineClient.Push; its error is only logged.
abbrev pub push : Notice → Db (Unit {0})
push n s = (ok tt, record s { outbox = s.outbox ++ n ∷ [] })

-- Tx.Begin and Tx.Commit
abbrev pub no_change : Db (Unit {0})
no_change = statement (λ now t. ok (tt, t))

module _ {A : Type 0} where
  committed : Tables → A → Result (Unit {0}) × Store → Result A × Store
  committed before a (ok _, s) = (ok a, s)
  committed before a (err e, s) = (err e, record s { tables = before })

  finish : Tables → Result A × Store → Result A × Store
  finish before (ok a, s) = committed before a (no_change s)
  finish before (err e, s) = (err e, record s { tables = before })

  begun : Db A → Result (Unit {0}) × Store → Result A × Store
  begun m (ok _, s) = finish s.tables (m s)
  begun m (err e, s) = (err e, s)

  -- Begin, the body, Commit, with `defer tx.Rollback`.
  unfoldable pub transaction : Db A → Db A
  unfolding committed finish begun
  transaction m s = begun m (no_change s)
