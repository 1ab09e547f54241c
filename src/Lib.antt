-- ===== src/Lib.antt =====
-- A verification library for the backend of tax-ocr, which reads Thai invoices: an uploaded document
-- is put into a queue, a worker has it read by two OCR engines and checks one reading against the
-- other, validates the buyer against the tenant, and classifies each line item as an asset or an
-- expense; what stays in doubt goes to a queue for review, where reviewers get tasks, in turn, and are
-- paid for what they complete. All of it keeps its state in PostgreSQL.
--
-- How the program's parts and the files correspond (paths of the program are below backend/internal):
--   Db/Types          the rows of db/store.go
--   Db/Monad          the store as a state: tables, clock, ids, and which statements fail
--   Db/Rows           tables as lists of rows, and the statements on one row
--   Db/ReviewerStore  db/reviewer_store.go, one function per method
--   Db/HitlStore      db/hitl_store.go
--   Db/RewardStore    db/reward_store.go
--   Db/Keys           which rows a row refers to, and the lengths of the columns
--   Db/TenantStore    db/tenant_store.go: tenants and branches
--   Db/UserStore      db/tenant_store.go: users
--   Db/ImportStore    db/tenant_store.go: document imports
--   Db/VendorStore    db/vendor_store.go
--   Db/RulesStore     db/rules_store.go
--   Db/InvoiceStore   db/invoice_store.go: reading and creating; Update, Items and Delete the rest
--   Db/Listings       the listings of reviewers, tasks, items, tenants and branches
--   Db/Migrate        db/migrate.go
--   Reviewer/Service  reviewer/service.go: the assignment of tasks and the check of what has expired
--   Reviewer/History  any sequence of the operations on reviewers, tasks, items and rewards, and of the
--                     deletions of items and invoices, which take tasks along (Deletions)
--   Queue             the pure functions of queue/worker.go: Similarity (min3, stringSimilarity),
--                     BranchCode (normalizeBranchCode), Buyer (validateBuyer), Dates (parseInvoiceDate),
--                     Late (the age of an invoice)
--   Queue/Worker      handleProcessInvoice, over Job (its payload and its parameters), Lines (the line
--                     items) and Notify (notifyLineUser)
--   Ocr/CrossVerify   ocr/crossverify.go
--   Ocr/Service       ocr/service.go
--   Classify          classify/service.go: Keywords (classifyByKeywords), Service (ClassifyWithDB),
--                     Learning (ClassifyWithDB with the rules of the store)
--   Api/RateLimiter   api/ratelimit.go
--   Api/Audit         api/audit_middleware.go
--   Api/Auth          api/auth_handler.go: setup, login, the tokens and the two guards
--   Api/Router        api/router.go: the guarded routes, and the handlers of tenants, branches and users
--   Api/Uploads       api/document_handler.go; Zip has the upload of a zip file, Links that from a link
--   Api/InvoiceHandlers  api/invoice_handler.go
--   Api/RulesHandlers api/rules_handler.go and api/vendor_handler.go
--   Api/ReviewerHandlers  api/reviewer_handler.go and api/hitl_handler.go
--   Float             float64 as an interface, with the facts of IEEE 754 that are relied on, and exact
--                     fractions as an instance of the interface
--   GoStrings         the functions of `strings` and `unicode` that the program calls
--   Prelude           names, tests and lemmas that all modules share
--   Examples          the theorems and the definitions on concrete inputs
--
-- How the program is modelled:
--   - A method of the store is a computation over `Store` that returns a result or an error. Each SQL
--     statement is one step, which either fails without effect, as the list `faults` of the state says,
--     or makes its change; a transaction is undone on an error. The CHECK, UNIQUE and FOREIGN KEY
--     constraints that bear on a statement are tests in its model, by the files of database/migrations;
--     a reference to a table that is not modelled can fail as any statement can.
--   - Rewards are natural numbers of the smallest unit, as the columns NUMERIC(…, 2) are exact. The
--     amounts of an invoice are a sign and a number of ten-thousandths, as its columns have at most four
--     decimals; amounts read from a file are float64, of the interface, and their conversion to NUMERIC
--     is a parameter.
--   - Texts that are walked through, or whose length a column bounds, are lists of runes; texts that are
--     only compared are strings.
--   - Times are natural numbers, of seconds in the store; the year and the month of one are a parameter.
--     The loops are recursions on lists, so no fuel is needed.
--   - The engines of OCR, the language model, the tables of Unicode, the storage of files, the reader of
--     zip files, URLs and the network, JWT, bcrypt,
--     and what the SQL of a migration does are parameters; LINE is an outbox of messages.
--   - notifyLineUser runs in a goroutine; it writes no table, and is taken to run after the handler.
--   - A request is what its handler reads of it: the path's id, the claims and the body, which is `none`
--     where readJSON refuses it; a response is a status and a value.
--
-- Not modelled: the listing of vendors, the archive, conversations and the
-- webhook of LINE, the reading of a text by ocr/vision.go and ocr/gpt.go, the configuration of OCR and
-- of the storage, CreateAuditLog with its table, which can refuse the entry it is given, the listing of
-- audit logs, the audit entry of a login, the table of routes, and the frontend.
pub mod Api
pub mod Classify
pub mod Db
pub mod Examples
pub mod Float
pub mod GoStrings
pub mod Ocr
pub mod Prelude
pub mod Queue
pub mod Reviewer
