-- ===== src/Api/Uploads.antt =====
-- backend/internal/api/document_handler.go: uploads. The storage, the reader of zip files and the queue
-- are parameters; a form that ParseMultipartForm refuses is `none`.
pub mod Zip
pub mod Links
use tax_ocr.Prelude.{
  ℕ, Bool, false, not, ◌||◌, ◌&&◌, if◌then◌else◌, String, ◌=ₛ◌, Text, runes, is_empty, Option, none,
  some, List, [], ◌∷◌, length, map,
}
use tax_ocr.GoStrings.{has_suffix}
use tax_ocr.GoStrings.Case.{UnicodeCase}
use tax_ocr.GoStrings.Split.{split}
use tax_ocr.Db.Types.{DocumentImport, Invoice}
use tax_ocr.Db.Monad.{Result, ok, err, Db, pure, try, ◌>>=◌, ◌>>◌}
use tax_ocr.Db.ImportStore.{
  create_document_import, get_document_import, list_document_imports_by_user,
}
use tax_ocr.Db.InvoiceStore.{create_invoice}
use tax_ocr.Db.InvoiceStore.Update.{zero_amount}
use tax_ocr.Queue.Job.{ProcessInvoicePayload, ignored}
use tax_ocr.Api.ReviewerHandlers.{Response, answering, always_not_found}
use tax_ocr.Api.Auth.{Claims, replied, replied_with}

-- A form's file: header.Filename and its bytes.
pub record FormFile : Type 0 where
  pub filename : Text
  pub content : Text

pub record UploadForm : Type 0 where
  pub tenant_id : String
  pub branch_id : String
  pub user_id : String
  pub file : Option FormFile

-- An entry of a zip file; its content is `none` if it cannot be opened or read.
pub record ZipEntry : Type 0 where
  pub name : Text
  pub is_dir : Bool
  pub content : Option Text

pub record Uploaded : Type 0 where
  pub path : String
  pub file_hash : String

-- storage.Upload, with no error the path and the hash; zip.NewReader on the first 100 MB of a file;
-- EnqueueProcessInvoice, if there is a queue.
pub record Services : Type 0 where
  pub upload :
      (tenant_id : String) (filename content : Text) (content_type : String) → Option Uploaded
  pub read_zip : Text → Option (List ZipEntry)
  pub queue : Option (ProcessInvoicePayload → Db (Unit {0}))

unfoldable pub detect_content_type : UnicodeCase → Text → String
detect_content_type u filename =
    let lower = map u.lower filename in
    if has_suffix lower (runes ".pdf")
    then "application/pdf"
    else if has_suffix lower (runes ".jpg") || has_suffix lower (runes ".jpeg")
    then "image/jpeg"
    else if has_suffix lower (runes ".png")
    then "image/png"
    else "application/octet-stream"

last_part : List Text → Text
last_part [] = []
last_part (s ∷ []) = s
last_part (s ∷ t ∷ ss) = last_part (t ∷ ss)

first_part : List Text → Text
first_part [] = []
first_part (s ∷ ss) = s

-- What comes behind the last slash, up to a question mark.
unfoldable pub extract_filename_from_url : Text → Text
unfolding last_part first_part
extract_filename_from_url raw_url =
    let name = first_part (split 63 (last_part (split 47 raw_url))) in
    if is_empty name then runes "download.jpg" else name

-- db.Invoice with the fields that an upload sets
unfoldable pub uploaded_invoice :
    (tenant_id branch_id document_import_id file_path file_hash : String) → Invoice
uploaded_invoice tenant_id branch_id document_import_id file_path file_hash = record {
  id = "";
  invoice_no = 0;
  tenant_id = tenant_id;
  branch_id = branch_id;
  document_import_id = document_import_id;
  file_path = file_path;
  file_hash = file_hash;
  doc_type = "";
  vat_inclusive = false;
  vat_rate = zero_amount;
  vendor_name = [];
  vendor_tax_id = [];
  vendor_address = [];
  vendor_branch_code = [];
  buyer_name = [];
  buyer_tax_id = [];
  buyer_address = [];
  buyer_branch_code = [];
  invoice_doc_no = [];
  invoice_date = [];
  invoice_year = 0;
  invoice_month = 0;
  invoice_day = 0;
  accounting_year = 0;
  accounting_month = 0;
  vendor_id = "";
  duplicate_of = "";
  vat_exempt_amount = zero_amount;
  vat_inclusive_subtotal = zero_amount;
  discount_amount = zero_amount;
  total_before_vat = zero_amount;
  vat_amount = zero_amount;
  total_amount = zero_amount;
  vat_math_ok = false;
  status = "";
  invalid_reason = "";
  verified_by = "";
  verified_at = none;
  created_at = 0;
  updated_at = 0;
}

-- With an invoice for each file that was stored.
pub record Accepted : Type 0 where
  pub document_import : DocumentImport
  pub invoices : List Invoice

module _ (u : UnicodeCase) (clock : ℕ → ℕ × ℕ) (services : Services) where
  -- An error of the queue is logged only.
  enqueue : Option (ProcessInvoicePayload → Db (Unit {0})) → ProcessInvoicePayload → Db (Unit {0})
  enqueue none payload = pure tt
  enqueue (some q) payload = ignored (q payload)

  payload_of :
      Invoice → (tenant_id branch_id import_id path content_type : String) → ProcessInvoicePayload
  payload_of inv tenant_id branch_id import_id path content_type = record {
    invoice_id = inv.id;
    document_import_id = import_id;
    tenant_id = tenant_id;
    branch_id = branch_id;
    file_path = path;
    content_type = content_type;
  }

  module _ (form : UploadForm) where
    new_upload : DocumentImport → Uploaded → Invoice
    new_upload doc uploaded =
        uploaded_invoice form.tenant_id form.branch_id doc.id uploaded.path uploaded.file_hash

    queued : DocumentImport → Uploaded → (content_type : String) → Invoice → Db (Unit {0})
    queued doc uploaded content_type inv =
        enqueue services.queue
          (payload_of inv form.tenant_id form.branch_id doc.id uploaded.path content_type)

    upload_queued :
        DocumentImport
        → Uploaded
        → (content_type : String) → Result Invoice
        → Db (Response Accepted)
    upload_queued doc uploaded content_type (err e) = replied 500
    upload_queued doc uploaded content_type (ok inv) = do
      queued doc uploaded content_type inv
      replied_with 202 (record { document_import = doc; invoices = inv ∷ [] })

    upload_recorded :
        Uploaded → (content_type : String) → Result DocumentImport → Db (Response Accepted)
    upload_recorded uploaded content_type (err e) = replied 400
    upload_recorded uploaded content_type (ok doc) = do
      inv ← try (create_invoice clock (new_upload doc uploaded))
      upload_queued doc uploaded content_type inv

    upload_stored : Option Uploaded → (content_type : String) → Db (Response Accepted)
    upload_stored none content_type = replied 500
    upload_stored (some uploaded) content_type = do
      doc ← try (create_document_import form.tenant_id form.branch_id form.user_id "upload" "" 1)
      upload_recorded uploaded content_type doc

    upload_file : Option FormFile → Db (Response Accepted)
    upload_file none = replied 400
    upload_file (some file) =
        let content_type = detect_content_type u file.filename in
        upload_stored (services.upload form.tenant_id file.filename file.content content_type)
          content_type

    -- errMissingFields
    lacks_fields : Bool
    lacks_fields = form.tenant_id =ₛ "" || form.branch_id =ₛ "" || form.user_id =ₛ ""

  unfoldable pub handle_upload_document : Option UploadForm → Db (Response Accepted)
  unfolding enqueue payload_of new_upload queued upload_queued upload_recorded upload_stored
      upload_file lacks_fields
  handle_upload_document none = replied 400
  handle_upload_document (some form) =
      if lacks_fields form then replied 400 else upload_file form form.file

unfoldable pub handle_document_status : (id : String) → Db (Response DocumentImport)
handle_document_status id = answering 200 always_not_found (get_document_import id)

own_documents : Result (List DocumentImport) → Db (Response (List DocumentImport))
own_documents (err e) = replied 500
own_documents (ok items) = replied_with 200 items

unfoldable pub handle_my_documents : Option Claims → Db (Response (List DocumentImport))
unfolding own_documents
handle_my_documents none = replied 401
handle_my_documents (some claims) = do
  items ← try (list_document_imports_by_user claims.user_id)
  own_documents items
