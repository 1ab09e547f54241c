-- ===== src/Db/InvoiceStore/Update/Laws.antt =====
-- What the updates of an invoice do to the table.
use tax_ocr.Prelude.{
  ℕ, String, ◌≡◌, refl, ap, ◌∙◌, subst, ◌⊎◌, Bool, true, false, Option, none, some, List, inl, inr,
  ◌≢◌, ◌=ₛ◌, sym, Bool-cases, arith,
}
use tax_ocr.Db.Types.{Invoice, Numeric}
use tax_ocr.Db.Rows.{find, update_row, update_row_changed, update_row_found, update_row_missing}
use mathlib.Core.Option.{some-injective}
use tax_ocr.Db.Monad.{ok, err, query_failed, Result, Tables, Store}
use tax_ocr.Db.Monad.Keeps.{Keeps, Keeps-statement}
use tax_ocr.Db.Monad.Returns.{statement_ok}
use tax_ocr.Db.Keys.{invoice_keyed}
use tax_ocr.Db.InvoiceStore.{admits, invoice_allowed}
use tax_ocr.Db.InvoiceStore.Update.{
  InvoiceUpdate, read_into, overwrite, exec_invoice, exec_update, store_invoice, update_invoice,
  verify_invoice, update_invoice_data, update_invoice_amounts, full_update_invoice,
  update_invoice_status,
}

exec_invoice_changed :
    (o : Option (Invoice × List Invoice)) (t t' : Tables) (a : Unit {0})
    → exec_invoice o t ≡ ok (a, t')
    → ((o ≡ none) × (t' ≡ t))
      ⊎ ((v : Invoice) × (vs : List Invoice) × (o ≡ some (v, vs))
          × (admits t v ≡ true)
          × (t' ≡ record t { invoices = vs }))
unfolding exec_invoice
exec_invoice_changed none t t' a e = inl (refl, ground arith)
exec_invoice_changed (some (v, vs)) t t' a e = inr (v, vs, refl, ground arith, ground arith)

store_invoice_changed :
    (o : Option (Invoice × List Invoice)) (t t' : Tables) (a : Invoice)
    → store_invoice o t ≡ ok (a, t')
    → (v : Invoice) × (vs : List Invoice) × (o ≡ some (v, vs))
      × (admits t v ≡ true)
      × (t' ≡ record t { invoices = vs })
unfolding store_invoice
store_invoice_changed none t t' a e = absurd (ground arith)
store_invoice_changed (some (v, vs)) t t' a e = (v, vs, refl, ground arith, ground arith)

-- An update keeps what it keeps when the new row is one that the constraints admit.
module _ {P : Tables → Type 0} (id : String) (f : ℕ → Invoice → Invoice)
    (keep : (now : ℕ) (t : Tables) (v : Invoice) (vs : List Invoice)
      → update_row id (λ z. true) (f now) t.invoices ≡ some (v, vs)
      → admits t v ≡ true
      → P t
      → P (record t { invoices = vs })) where
  exec_update-keeps : Keeps P (exec_update id f)
  unfolding exec_update
  exec_update-keeps = Keeps-statement _ λ now t a t' h e.
      elim (exec_invoice_changed (update_row id (λ z. true) (f now) t.invoices) t t' a e) [
        | inl (_, same) ↦ rw same h
        | inr (v, vs, row, admitted, is) ↦ rw is (keep now t v vs row admitted h)
      ]

  update_invoice-keeps : Keeps P (update_invoice id f)
  unfolding update_invoice
  update_invoice-keeps = Keeps-statement _ λ now t a t' h e.
      let (v, vs, row, admitted, is) =
        store_invoice_changed (update_row id (λ z. true) (f now) t.invoices) t t' a e in
      rw is (keep now t v vs row admitted h)

-- A property of the tables that every admitted change of one row keeps is kept by each statement that
-- changes an invoice.
pub record KeptByUpdates (P : Tables → Type 0) : Type 0 where
  pub row :
      (id : String) (f : Invoice → Invoice)
      → ((z : Invoice) → (f z).id ≡ z.id)
      → (t : Tables) (v : Invoice) (vs : List Invoice)
      → update_row id (λ z. true) f t.invoices ≡ some (v, vs)
      → admits t v ≡ true
      → P t
      → P (record t { invoices = vs })

module _ {P : Tables → Type 0} (k : KeptByUpdates P) where
  pub update_invoice_data-kept :
      (id : String) (u : InvoiceUpdate) → Keeps P (update_invoice_data id u)
  unfolding update_invoice_data read_into
  update_invoice_data-kept id u = exec_update-keeps id _ (λ now. k.row id _ (λ z. refl))

  pub update_invoice_amounts-kept :
      (id : String) (a b c : Numeric) (vat_math_ok : Bool)
      → Keeps P (update_invoice_amounts id a b c vat_math_ok)
  unfolding update_invoice_amounts
  update_invoice_amounts-kept id a b c vat_math_ok =
      exec_update-keeps id _ (λ now. k.row id _ (λ z. refl))

  pub full_update_invoice-kept :
      (id : String) (u : InvoiceUpdate) → Keeps P (full_update_invoice id u)
  unfolding full_update_invoice overwrite
  full_update_invoice-kept id u = update_invoice-keeps id _ (λ now. k.row id _ (λ z. refl))

  pub update_invoice_status-kept : (id status : String) → Keeps P (update_invoice_status id status)
  unfolding update_invoice_status
  update_invoice_status-kept id status = update_invoice-keeps id _ (λ now. k.row id _ (λ z. refl))

exec_invoice_tables :
    (o : Option (Invoice × List Invoice)) (t t' : Tables) (a : Unit {0})
    → exec_invoice o t ≡ ok (a, t')
    → t' ≡ record t { invoices = t'.invoices }
unfolding exec_invoice
exec_invoice_tables none t t' a e = ground arith
exec_invoice_tables (some (x, xs)) t t' a e = ground arith

invalid_refused :
    (now : ℕ) (u : InvoiceUpdate) (v : Invoice) (t : Tables)
    → u.status ≡ "invalid"
    → admits t (read_into now u v) ≡ false
unfolding admits invoice_allowed read_into
invalid_refused now u v t e = rw e refl

exec_invoice_refused :
    (o : Option (Invoice × List Invoice)) (t t' : Tables) (a : Unit {0})
    → ((v : Invoice) (vs : List Invoice) → o ≡ some (v, vs) → admits t v ≡ false)
    → exec_invoice o t ≡ ok (a, t')
    → t ≡ t'
unfolding exec_invoice
exec_invoice_refused none t t' a refused e = ground arith
exec_invoice_refused (some (v, vs)) t t' a refused e = absurd (ground (arith, e, refused v vs refl))

-- The status 'invalid' is one that the table does not admit: an update that sets it changes nothing.
pub update_invoice_data_invalid :
    {P : Tables → Type 0} (id : String) (u : InvoiceUpdate)
    → u.status ≡ "invalid"
    → Keeps P (update_invoice_data id u)
unfolding update_invoice_data exec_update
update_invoice_data_invalid {P} id u e = Keeps-statement _ λ now t a t' h q.
    subst P
      (exec_invoice_refused (update_row id (λ v. true) (read_into now u) t.invoices) t t' a
        (λ v vs row.
          let (x, _, _, is, _) =
            update_row_changed id (λ z. true) (read_into now u) t.invoices v vs row in
          ap (admits t) is ∙ invalid_refused now u x t e)
        q)
      h

-- An update of the data writes to invoices alone.
pub update_invoice_data-keeps :
    {P : Tables → Type 0}
    → ((t : Tables) (vs : List Invoice) → P t → P (record t { invoices = vs }))
    → (id : String) (u : InvoiceUpdate) → Keeps P (update_invoice_data id u)
unfolding update_invoice_data exec_update
update_invoice_data-keeps free id u = Keeps-statement _ λ now t a t' h e.
    rw (exec_invoice_tables (update_row id (λ v. true) (read_into now u) t.invoices) t t' a e)
      (free t _ h)

not_there : {x : Invoice} → ◌≡◌ {A = Option Invoice} none (some x) → ⊥
not_there e = cc

-- Every other invoice is as it was.
abbrev pub OthersAsIn : String → Tables → Tables → Type 0
OthersAsIn id before t =
    (j : String) → (id =ₛ j) ≢ true → find j t.invoices ≡ find j before.invoices

module _ (id : String) (f : ℕ → Invoice → Invoice)
    (same : (now : ℕ) (z : Invoice) → (f now z).id ≡ z.id) where
  others_kept :
      (before : Tables) (now : ℕ) (t : Tables) (v : Invoice) (vs : List Invoice)
      → update_row id (λ z. true) (f now) t.invoices ≡ some (v, vs)
      → admits t v ≡ true
      → OthersAsIn id before t
      → OthersAsIn id before (record t { invoices = vs })
  others_kept before now t v vs row admitted h j differ =
      (update_row_found id (λ z. true) (f now) t.invoices v vs (same now) row).1 j differ
      ∙ h j differ

  -- An UPDATE by Exec that returns has changed the row that is then found.
  exec_update_found :
      (s : Store) (x : Invoice)
      → (exec_update id f s).0 ≡ ok tt
      → find id (exec_update id f s).1.tables.invoices ≡ some x
      → (y : Invoice) × (find id s.tables.invoices ≡ some y) × (x ≡ f s.now y)
  unfolding exec_update
  exec_update_found s x e found =
      let q =
        statement_ok (λ now t. exec_invoice (update_row id (λ v. true) (f now) t.invoices) t) s tt
          e in
      elim (exec_invoice_changed _ s.tables _ tt q) [
        | inl (missing, is) ↦ absurd (
            not_there (
              sym (update_row_missing id (f s.now) s.tables.invoices missing)
              ∙ sym (ap (λ (t : Tables). find id t.invoices) is)
              ∙ found))
        | inr (v, vs, row, admitted, is) ↦
            let (y, there, _, becomes, _) =
              update_row_changed id (λ z. true) (f s.now) s.tables.invoices v vs row in
            (
              y,
              there,
              some-injective _ _ (
                    sym found
                    ∙ ap (λ (t : Tables). find id t.invoices) is
                    ∙ (update_row_found id (λ z. true) (f s.now) s.tables.invoices v vs (same s.now)
                        row).0)
                  ∙ becomes,
            )
      ]

  -- An UPDATE … RETURNING that returns has changed the row that is then found.
  update_invoice_found :
      (s : Store) (a : Invoice)
      → (update_invoice id f s).0 ≡ ok a
      → (y : Invoice) × (find id s.tables.invoices ≡ some y)
        × (find id (update_invoice id f s).1.tables.invoices ≡ some (f s.now y))
  unfolding update_invoice
  update_invoice_found s a e =
      let q =
        statement_ok (λ now t. store_invoice (update_row id (λ v. true) (f now) t.invoices) t) s a
          e in
      let (v, vs, row, admitted, is) = store_invoice_changed _ s.tables _ a q in
      let (y, there, _, becomes, _) =
        update_row_changed id (λ z. true) (f s.now) s.tables.invoices v vs row in
      (
        y,
        there,
        ap (λ (t : Tables). find id t.invoices) is
            ∙ (update_row_found id (λ z. true) (f s.now) s.tables.invoices v vs (same s.now) row).0
            ∙ ap some becomes,
      )

err_ok : {A : Type 0} {a : A} → ◌≡◌ {A = Result A} (err query_failed) (ok a) → ⊥
err_ok e = cc

pub update_invoice_amounts-others :
    (before : Tables) (id : String) (a b c : Numeric) (m : Bool)
    → Keeps (OthersAsIn id before) (update_invoice_amounts id a b c m)
unfolding update_invoice_amounts
update_invoice_amounts-others before id a b c m =
    exec_update-keeps id _ (others_kept id _ (λ now z. refl) before)

pub verify_invoice-others :
    (before : Tables) (id user_id : String)
    → Keeps (OthersAsIn id before) (verify_invoice id user_id)
unfolding verify_invoice
verify_invoice-others before id user_id = elim (Bool-cases (user_id =ₛ "")) [
  | inl h ↦ rw h (Keeps-statement _ (λ now t a t' k q. absurd (err_ok q)))
  | inr h ↦ rw h (update_invoice-keeps id _ (others_kept id _ (λ now z. refl) before))
]

-- The invoice that the amounts were written to, if it is there.
pub update_invoice_amounts_found :
    (id : String) (a b c : Numeric) (m : Bool) (s : Store) (x : Invoice)
    → (update_invoice_amounts id a b c m s).0 ≡ ok tt
    → find id (update_invoice_amounts id a b c m s).1.tables.invoices ≡ some x
    → (x.total_before_vat ≡ a) × (x.vat_amount ≡ b) × (x.total_amount ≡ c) × (x.vat_math_ok ≡ m)
unfolding update_invoice_amounts
update_invoice_amounts_found id a b c m s x e found =
    let (y, _, is) = exec_update_found id _ (λ now z. refl) s x e found in
    rw is (refl, refl, refl, refl)

pub verify_invoice_found :
    (id user_id : String) (s : Store) (a : Invoice)
    → (verify_invoice id user_id s).0 ≡ ok a
    → (y : Invoice) × (find id s.tables.invoices ≡ some y)
      × (find id (verify_invoice id user_id s).1.tables.invoices
          ≡ some (record y {
            status = "verified";
            verified_by = user_id;
            verified_at = some s.now;
            updated_at = s.now;
          }))
unfolding verify_invoice
verify_invoice_found id user_id s a e = elim (Bool-cases (user_id =ₛ "")) [
  | inl h ↦ absurd (err_ok (statement_ok (λ now t. err query_failed) s a (rw h at e)))
  | inr h ↦ rw h (update_invoice_found id _ (λ now z. refl) s a (rw h at e))
]

-- An update of the data keeps what every change of that one invoice keeps.
pub update_invoice_data-kept_others :
    {P : Tables → Type 0} (id : String)
    → ((t : Tables) (vs : List Invoice)
        → ((j : String) → (id =ₛ j) ≢ true → find j vs ≡ find j t.invoices)
        → P t
        → P (record t { invoices = vs }))
    → (u : InvoiceUpdate) → Keeps P (update_invoice_data id u)
unfolding update_invoice_data read_into
update_invoice_data-kept_others id keep u = exec_update-keeps id _ λ now t v vs row admitted h.
    keep t vs (update_row_found id (λ z. true) _ t.invoices v vs (λ z. refl) row).1 h
