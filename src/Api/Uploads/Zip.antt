-- ===== src/Api/Uploads/Zip.antt =====
-- backend/internal/api/document_handler.go: the upload of a zip file, each of whose files becomes an
-- invoice.
use tax_ocr.Prelude.{
  ℕ, Bool, not, ◌&&◌, if◌then◌else◌, String, ◌=ₛ◌, Text, runes, Option, none, some, List, [], ◌∷◌,
  length, map,
}
use tax_ocr.GoStrings.{has_suffix}
use tax_ocr.GoStrings.Case.{UnicodeCase}
use tax_ocr.Db.Types.{DocumentImport, Invoice}
use tax_ocr.Db.Monad.{Result, ok, err, Db, pure, try, ◌>>=◌, ◌>>◌}
use tax_ocr.Db.ImportStore.{create_document_import}
use tax_ocr.Db.InvoiceStore.{create_invoice}
use tax_ocr.Api.ReviewerHandlers.{Response}
use tax_ocr.Api.Auth.{replied, replied_with}
use tax_ocr.Api.Uploads.{
  FormFile, UploadForm, ZipEntry, Uploaded, Services, Accepted, detect_content_type, new_upload,
  queued, lacks_fields,
}

module _ (u : UnicodeCase) (clock : ℕ → ℕ × ℕ) (services : Services) where
  module _ (form : UploadForm) where
    -- What becomes of one file of a zip file; an error skips the file.
    zip_queued :
        DocumentImport → Uploaded → (content_type : String) → Result Invoice → Db (List Invoice)
    zip_queued doc uploaded content_type (err e) = pure []
    zip_queued doc uploaded content_type (ok inv) = do
      queued u clock services form doc uploaded content_type inv
      pure (inv ∷ [])

    zip_stored : DocumentImport → Option Uploaded → (content_type : String) → Db (List Invoice)
    zip_stored doc none content_type = pure []
    zip_stored doc (some uploaded) content_type = do
      inv ← try (create_invoice clock (new_upload u clock services form doc uploaded))
      zip_queued doc uploaded content_type inv

    zip_file : DocumentImport → (name : Text) → (content : Option Text) → Db (List Invoice)
    zip_file doc name none = pure []
    zip_file doc name (some content) =
        let content_type = detect_content_type u name in
        zip_stored doc (services.upload form.tenant_id name content content_type) content_type

    with_first : List Invoice → List Invoice → List Invoice
    with_first [] rest = rest
    with_first (inv ∷ invs) rest = inv ∷ rest

    zip_files : DocumentImport → List ZipEntry → Db (List Invoice)
    zip_files doc [] = pure []
    zip_files doc (e ∷ es) = do
      first ← zip_file doc e.name e.content
      rest ← zip_files doc es
      pure (with_first first rest)

    zip_recorded : List ZipEntry → Result DocumentImport → Db (Response Accepted)
    zip_recorded files (err e) = replied 400
    zip_recorded files (ok doc) = do
      invoices ← zip_files doc files
      replied_with 202 (record { document_import = doc; invoices = invoices })

    -- A directory and a file of another type are left out.
    is_processable : ZipEntry → Bool
    is_processable e =
        not e.is_dir && not (detect_content_type u e.name =ₛ "application/octet-stream")

    processable : List ZipEntry → List ZipEntry
    processable [] = []
    processable (e ∷ es) = let rest = processable es in if is_processable e then e ∷ rest else rest

    zip_processed : List ZipEntry → Db (Response Accepted)
    zip_processed [] = replied 400
    zip_processed (e ∷ es) = do
      doc ← try (
          create_document_import form.tenant_id form.branch_id form.user_id "zip" ""
            (length (e ∷ es)))
      zip_recorded (e ∷ es) doc

    zip_read : Option (List ZipEntry) → Db (Response Accepted)
    zip_read none = replied 400
    zip_read (some entries) = zip_processed (processable entries)

    zip_opened : Option FormFile → Db (Response Accepted)
    zip_opened none = replied 400
    zip_opened (some file) =
        if not (has_suffix (map u.lower file.filename) (runes ".zip"))
        then replied 400
        else zip_read (services.read_zip file.content)

  unfoldable pub handle_upload_zip : Option UploadForm → Db (Response Accepted)
  unfolding new_upload queued zip_queued zip_stored zip_file with_first zip_files zip_recorded
      is_processable processable zip_processed zip_read zip_opened lacks_fields
  handle_upload_zip none = replied 400
  handle_upload_zip (some form) =
      if lacks_fields u clock services form then replied 400 else zip_opened form form.file
