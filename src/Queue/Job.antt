-- ===== src/Queue/Job.antt =====
-- backend/internal/queue/task.go and worker.go: a job of the queue, and what the worker that takes it
-- is made of. The storage, the engines, the model that classifies and the conversions of the NUMERIC
-- columns are parameters.
use tax_ocr.Prelude.{ℕ, Bool, String, Text, Option}
use tax_ocr.Float.{Float64}
use tax_ocr.Db.Types.{Numeric}
use tax_ocr.Db.Monad.{Db, pure, try, ◌>>=◌}
use tax_ocr.Ocr.Service.{Clients, Engines}
use tax_ocr.Classify.Service.{Reply}

pub record ProcessInvoicePayload : Type 0 where
  pub invoice_id : String
  pub document_import_id : String
  pub tenant_id : String
  pub branch_id : String
  pub file_path : String
  pub content_type : String

-- The error that the handler returns, after which asynq tries the task again.
pub data HandlerError : Type 0 where
  unmarshal_error download_error ocr_error : HandlerError

-- `none` is nil.
abbrev pub Handled : Type 0
Handled = Option HandlerError

-- What a worker is made of.
pub record Worker (f : Float64) : Type 0 where
  -- storage.Download, `none` for an error
  pub download : String → Option Text
  pub clients : Clients
  pub engines : Engines f
  -- whether classify.Service has a key, and classifyWithAI
  pub has_key : Bool
  pub ask : Text → Option (Reply f)
  -- reviewerSvc != nil, its expireMinutes, and lineClient != nil
  pub has_reviewers : Bool
  pub expire_minutes : ℕ
  pub has_line : Bool
  -- a NUMERIC as a float64, and a float64 as a NUMERIC with a number of decimals
  pub to_float : Numeric → f.F
  pub to_numeric : ℕ → f.F → Numeric

unfoldable pub ignored : {A : Type 0} → Db A → Db (Unit {0})
ignored m = try m >>= λ r. pure tt
