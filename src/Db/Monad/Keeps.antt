-- ===== src/Db/Monad/Keeps.antt =====
-- Properties of the tables that a computation keeps, one rule for each way to build it.
use tax_ocr.Prelude.{ℕ, ◌≡◌, refl, subst, Bool, true, false}
use tax_ocr.Db.Monad.{
  DbError, Result, ok, err, Tables, Store, Notice, Db, pure, raise, try, statement, next_statement,
  failing, later, answer, ◌>>=◌, continue, new_id, next_invoice_no, time_now, push, transaction,
  no_change, committed, finish, begun,
}

-- `m` keeps `P`, whether it returns an error or not and whichever statements fail.
pub record Keeps {A : Type 0} (P : Tables → Type 0) (m : Db A) : Type 0 where
  pub at : (s : Store) → P s.tables → P (m s).1.tables

-- The tables that a statement without a condition leaves.
pub ok_tables :
    {A : Type 0} (a b : A) (t t' : Tables)
    → ◌≡◌ {A = Result (A × Tables)} (ok (a, t)) (ok (b, t'))
    → t ≡ t'
ok_tables a b t t' e = cc

module _ {P : Tables → Type 0} where
  pub Keeps-pure : {A : Type 0} (a : A) → Keeps P (pure a)
  Keeps-pure a = record { at = λ s h. h }

  pub Keeps-raise : {A : Type 0} (e : DbError) → Keeps P (raise {A = A} e)
  Keeps-raise e = record { at = λ s h. h }

  pub Keeps-new_id : Keeps P new_id
  Keeps-new_id = record { at = λ s h. h }

  pub Keeps-next_invoice_no : Keeps P next_invoice_no
  Keeps-next_invoice_no = record { at = λ s h. h }

  pub Keeps-time_now : Keeps P time_now
  Keeps-time_now = record { at = λ s h. h }

  pub Keeps-push : (n : Notice) → Keeps P (push n)
  Keeps-push n = record { at = λ s h. h }

  pub Keeps-try : {A : Type 0} {m : Db A} → Keeps P m → Keeps P (try m)
  Keeps-try k = record { at = k.at }

  continue-keeps :
      {A B : Type 0} (f : A → Db B) (r : Result A) (s : Store)
      → ((a : A) → Keeps P (f a))
      → P s.tables
      → P (continue r f s).1.tables
  continue-keeps f (ok a) s k h = (k a).at s h
  continue-keeps f (err e) s k h = h

  pub Keeps-bind :
      {A B : Type 0} {m : Db A} {f : A → Db B}
      → Keeps P m
      → ((a : A) → Keeps P (f a))
      → Keeps P (m >>= f)
  unfolding ◌>>=◌
  Keeps-bind {m} {f} k g = record { at = λ s h. continue-keeps f (m s).0 (m s).1 g (k.at s h) }

  -- A statement keeps `P` if its effect on the tables does.
  answer-keeps :
      {A : Type 0} (s : Store) (r : Result (A × Tables))
      → ((a : A) (t : Tables) → r ≡ ok (a, t) → P t)
      → P s.tables
      → P (answer s r).1.tables
  unfolding answer
  answer-keeps s (ok (a, t)) k h = k a t refl
  answer-keeps s (err e) k h = h

  next_statement-keeps :
      {A : Type 0} (b : Bool) (q : ℕ → Tables → Result (A × Tables)) (s : Store)
      → ((now : ℕ) (t : Tables) (a : A) (t' : Tables) → P t → q now t ≡ ok (a, t') → P t')
      → P s.tables
      → P (next_statement b q s).1.tables
  unfolding next_statement
  next_statement-keeps true q s k h = h
  next_statement-keeps false q s k h =
      answer-keeps s (q s.now s.tables) (λ a t e. k s.now s.tables a t h e) h

  pub Keeps-statement :
      {A : Type 0} (q : ℕ → Tables → Result (A × Tables))
      → ((now : ℕ) (t : Tables) (a : A) (t' : Tables) → P t → q now t ≡ ok (a, t') → P t')
      → Keeps P (statement q)
  unfolding statement
  Keeps-statement q k = record {
    at =
        λ s h. next_statement-keeps (failing s.faults) q (record s { faults = later s.faults }) k h;
  }

  pub no_change-keeps : Keeps P no_change
  no_change-keeps = Keeps-statement _ λ now t a t' h e. subst P (ok_tables tt a t t' e) h

  -- A transaction keeps `P` if its body does when it returns no error: with an error it is undone.
  pub Keeps-transaction :
      {A : Type 0} (m : Db A)
      → ((s : Store) (a : A) → P s.tables → (m s).0 ≡ ok a → P (m s).1.tables)
      → Keeps P (transaction m)
  unfolding transaction
  Keeps-transaction {A} m k = record {
    at = λ s h. begun-keeps (no_change s).0 (no_change s).1 (no_change-keeps.at s h);
  }
    where
      committed-keeps :
          (before : Tables) (a : A) (r : Result (Unit {0})) (s : Store)
          → P before
          → P s.tables
          → P (committed before a (r, s)).1.tables
      committed-keeps before a (ok _) s b h = h
      committed-keeps before a (err e) s b h = b

      finish-keeps :
          (before : Tables) (r : Result A) (s : Store)
          → P before
          → ((a : A) → r ≡ ok a → P s.tables)
          → P (finish before (r, s)).1.tables
      finish-keeps before (ok a) s b h =
          committed-keeps before a (no_change s).0 (no_change s).1 b
            (no_change-keeps.at s (h a refl))
      finish-keeps before (err e) s b h = b

      begun-keeps : (r : Result (Unit {0})) (s : Store) → P s.tables → P (begun m (r, s)).1.tables
      begun-keeps (ok _) s h = finish-keeps s.tables (m s).0 (m s).1 h (λ a e. k s a h e)
      begun-keeps (err e) s h = h

  pub Keeps-transaction_body : {A : Type 0} {m : Db A} → Keeps P m → Keeps P (transaction m)
  Keeps-transaction_body {m} k = Keeps-transaction m (λ s a h e. k.at s h)
