-- ===== src/Queue/Notify/Laws.antt =====
-- The notice to the user changes no table.
use tax_ocr.Prelude.{ℕ, String, ◌=ₛ◌, ◌||◌, not, Bool-cases, inl, inr}
use tax_ocr.Float.{Float64}
use tax_ocr.Db.Types.{User, DocumentImport, Invoice}
use tax_ocr.Db.Monad.{Result, ok, err, Tables}
use tax_ocr.Db.Monad.Keeps.{Keeps, Keeps-pure, Keeps-push, Keeps-try, Keeps-bind}
use tax_ocr.Db.UserStore.Laws.{get_user_by_id-keeps}
use tax_ocr.Db.ImportStore.Laws.{get_document_import-keeps}
use tax_ocr.Db.InvoiceStore.Laws.{get_invoice-keeps}
use tax_ocr.Queue.Job.{ProcessInvoicePayload, Worker}
use tax_ocr.Queue.Notify.{tell, tell_user, tell_sender, notify_line_user}

module _ {P : Tables → Type 0} (f : Float64) (w : Worker f) (p : ProcessInvoicePayload) where
  tell-keeps :
      (status : String) (n : ℕ) (line_user_id : String) (r : Result Invoice)
      → Keeps P (tell f w p status n line_user_id r)
  unfolding tell
  tell-keeps status n line_user_id (err e) = Keeps-pure tt
  tell-keeps status n line_user_id (ok v) = elim (Bool-cases (status =ₛ "verified")) [
    | inl e ↦ rw e (Keeps-push _)
    | inr e ↦ rw e (Keeps-push _)
  ]

  tell_user-keeps :
      (status : String) (n : ℕ) (r : Result User) → Keeps P (tell_user f w p status n r)
  unfolding tell_user
  tell_user-keeps status n (err e) = Keeps-pure tt
  tell_user-keeps status n (ok user) = elim (Bool-cases (user.line_user_id =ₛ "")) [
    | inl e ↦ rw e (Keeps-pure tt)
    | inr e ↦ rw e (
        Keeps-bind (Keeps-try (get_invoice-keeps p.invoice_id))
          λ v. tell-keeps status n user.line_user_id v)
  ]

  tell_sender-keeps :
      (status : String) (n : ℕ) (r : Result DocumentImport) → Keeps P (tell_sender f w p status n r)
  unfolding tell_sender
  tell_sender-keeps status n (err e) = Keeps-pure tt
  tell_sender-keeps status n (ok doc) = elim (Bool-cases (doc.user_id =ₛ "")) [
    | inl e ↦ rw e (Keeps-pure tt)
    | inr e ↦ rw e (
        Keeps-bind (Keeps-try (get_user_by_id-keeps doc.user_id))
          λ user. tell_user-keeps status n user)
  ]

  pub notify_line_user-keeps : (status : String) (n : ℕ) → Keeps P (notify_line_user f w p status n)
  unfolding notify_line_user
  notify_line_user-keeps status n =
      elim (Bool-cases (not w.has_line || p.document_import_id =ₛ "")) [
        | inl e ↦ rw e (Keeps-pure tt)
        | inr e ↦ rw e (
            Keeps-bind (Keeps-try (get_document_import-keeps p.document_import_id))
              λ doc. tell_sender-keeps status n doc)
      ]
