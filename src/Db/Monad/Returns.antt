-- ===== src/Db/Monad/Returns.antt =====
-- What a computation returns, and the store that it leaves, step by step.
use tax_ocr.Prelude.{ℕ, ◌≡◌, refl, ap, sym, ◌∙◌, [], ◌≢◌, Bool, true, false, arith}
use tax_ocr.Db.Monad.{
  DbError, query_failed, Result, ok, err, Tables, Store, Db, pure, try, statement, next_statement,
  failing, later, answer, ◌>>=◌, ◌>>◌, continue, time_now, transaction, no_change, committed,
  finish, begun,
}
use tax_ocr.Db.Monad.Keeps.{no_change-keeps}

abbrev with_tables : {A : Type 0} → Tables → Result A → Result (A × Tables)
with_tables t (ok a) = ok (a, t)
with_tables t (err c) = err c

module _ {A : Type 0} where
  answer_ok :
      (s : Store) (r : Result (A × Tables)) (a : A)
      → (answer s r).0 ≡ ok a
      → r ≡ ok (a, (answer s r).1.tables)
  unfolding answer
  answer_ok s (ok (b, t)) a e = ap (λ (x : Result A). with_tables t x) e
  answer_ok s (err c) a e = cc

  next_statement_ok :
      (b : Bool) (q : ℕ → Tables → Result (A × Tables)) (s : Store) (a : A)
      → (next_statement b q s).0 ≡ ok a
      → q s.now s.tables ≡ ok (a, (next_statement b q s).1.tables)
  unfolding next_statement
  next_statement_ok true q s a e = cc
  next_statement_ok false q s a e = answer_ok s (q s.now s.tables) a e

  -- A statement that returns has made the change that its query describes.
  pub statement_ok :
      (q : ℕ → Tables → Result (A × Tables)) (s : Store) (a : A)
      → (statement q s).0 ≡ ok a
      → q s.now s.tables ≡ ok (a, (statement q s).1.tables)
  unfolding statement
  statement_ok q s a e =
      next_statement_ok (failing s.faults) q (record s { faults = later s.faults }) a e

module _ {A B : Type 0} where
  continue_ok :
      (f : A → Db B) (r : Result A) (s : Store) (b : B)
      → (continue r f s).0 ≡ ok b
      → (a : A) × (r ≡ ok a) × (continue r f s ≡ f a s) × ((f a s).0 ≡ ok b)
  continue_ok f (ok a) s b e = (a, refl, refl, e)
  continue_ok f (err c) s b e = cc

  -- A chain that returns has returned at each step.
  pub bind_ok :
      (m : Db A) (f : A → Db B) (s : Store) (b : B)
      → ((m >>= f) s).0 ≡ ok b
      → (a : A) × ((m s).0 ≡ ok a) × ((m >>= f) s ≡ f a (m s).1) × ((f a (m s).1).0 ≡ ok b)
  unfolding ◌>>=◌
  bind_ok m f s b e = continue_ok f (m s).0 (m s).1 b e

module _ {A B : Type 0} where
  continue_at :
      (f : A → Db B) (r : Result A) (s : Store) (a : A) → r ≡ ok a → continue r f s ≡ f a s
  continue_at f (ok b) s a e = ap (λ (r : Result A). continue r f s) e
  continue_at f (err c) s a e = cc

  -- A step that returns hands its answer on.
  pub bind_at :
      (m : Db A) (f : A → Db B) (s : Store) (a : A) → (m s).0 ≡ ok a → (m >>= f) s ≡ f a (m s).1
  unfolding ◌>>=◌
  bind_at m f s a e = continue_at f (m s).0 (m s).1 a e

module _ {A B : Type 0} where
  -- `try` hands on the answer, an error as well.
  pub try_at :
      (m : Db A) (g : Result A → Db B) (s s' : Store) (r : Result A)
      → m s ≡ (r, s')
      → (try m >>= g) s ≡ g r s'
  unfolding ◌>>=◌
  try_at m g s s' r e = ap (λ (x : Result A × Store). g x.0 x.1) e

  continue_then : (r : Result A) (s : Store) (b : B) → (continue r (λ a. pure b) s).1 ≡ s
  continue_then (ok a) s b = refl
  continue_then (err e) s b = refl

  -- An answer that replaces another changes nothing.
  pub then_at : (m : Db A) (b : B) (s : Store) → ((m >> pure b) s).1 ≡ (m s).1
  unfolding ◌>>=◌
  then_at m b s = continue_then (m s).0 (m s).1 b

pub time_now_at : {B : Type 0} (g : ℕ → Db B) (s : Store) → (time_now >>= g) s ≡ g s.now s
unfolding ◌>>=◌
time_now_at g s = refl

module _ {A : Type 0} where
  answer_quiet :
      (s : Store) (r : Result (A × Tables)) (a : A) → r ≡ ok (a, s.tables) → answer s r ≡ (ok a, s)
  unfolding answer
  answer_quiet s r a e = rw e refl

  -- A query that does not fail leaves the store as it is.
  pub statement_quiet :
      (q : ℕ → Tables → Result (A × Tables)) (s : Store) (a : A)
      → s.faults ≡ []
      → q s.now s.tables ≡ ok (a, s.tables)
      → statement q s ≡ (ok a, s)
  unfolding statement next_statement failing later
  statement_quiet q s a quiet e =
      rw quiet (answer_quiet (record s { faults = [] }) (q s.now s.tables) a e)
      ∙ ap (λ fs. (ok a, record s { faults = fs })) (sym quiet)

  -- The same where other statements to come can fail.
  pub statement_answered :
      (q : ℕ → Tables → Result (A × Tables)) (s : Store) (a : A)
      → failing s.faults ≡ false
      → q s.now s.tables ≡ ok (a, s.tables)
      → statement q s ≡ (ok a, record s { faults = later s.faults })
  unfolding statement next_statement
  statement_answered q s a quiet e =
      rw quiet (answer_quiet (record s { faults = later s.faults }) (q s.now s.tables) a e)

  answer_refused :
      (s : Store) (r : Result (A × Tables)) (c : DbError) → r ≡ err c → answer s r ≡ (err c, s)
  unfolding answer
  answer_refused s r c e = rw e refl

  pub statement_refused :
      (q : ℕ → Tables → Result (A × Tables)) (s : Store) (c : DbError)
      → s.faults ≡ []
      → q s.now s.tables ≡ err c
      → statement q s ≡ (err c, s)
  unfolding statement next_statement failing later
  statement_refused q s c quiet e =
      rw quiet (answer_refused (record s { faults = [] }) (q s.now s.tables) c e)
      ∙ ap (λ fs. (err c, record s { faults = fs })) (sym quiet)

  pub statement_denied :
      (q : ℕ → Tables → Result (A × Tables)) (s : Store) (c : DbError)
      → failing s.faults ≡ false
      → q s.now s.tables ≡ err c
      → statement q s ≡ (err c, record s { faults = later s.faults })
  unfolding statement next_statement
  statement_denied q s c quiet e =
      rw quiet (answer_refused (record s { faults = later s.faults }) (q s.now s.tables) c e)

module _ {A : Type 0} where
  answer_err :
      (s : Store) (r : Result (A × Tables)) (c : DbError) → (answer s r).0 ≡ err c → r ≡ err c
  unfolding answer
  answer_err s (ok (b, t)) c e = cc
  answer_err s (err d) c e = ground arith

  next_statement_err :
      (b : Bool) (q : ℕ → Tables → Result (A × Tables)) (s : Store) (c : DbError)
      → c ≢ query_failed
      → (next_statement b q s).0 ≡ err c
      → q s.now s.tables ≡ err c
  unfolding next_statement
  next_statement_err true q s c differ e = absurd (differ (ground arith))
  next_statement_err false q s c differ e = answer_err s (q s.now s.tables) c e

  -- An error of the program's own comes from the query.
  pub statement_err :
      (q : ℕ → Tables → Result (A × Tables)) (s : Store) (c : DbError)
      → c ≢ query_failed
      → (statement q s).0 ≡ err c
      → q s.now s.tables ≡ err c
  unfolding statement
  statement_err q s c differ e =
      next_statement_err (failing s.faults) q (record s { faults = later s.faults }) c differ e

module _ {A : Type 0} where
  committed_ok :
      (before : Tables) (b : A) (r : Result (Unit {0}) × Store) (a : A)
      → (committed before b r).0 ≡ ok a
      → ◌≡◌ {A = Result A} (ok b) (ok a)
  unfolding committed
  committed_ok before b (ok _, s) a e = e
  committed_ok before b (err c, s) a e = cc

  finish_ok :
      (before : Tables) (r : Result A × Store) (a : A) → (finish before r).0 ≡ ok a → r.0 ≡ ok a
  unfolding finish
  finish_ok before (ok b, s) a e = committed_ok before b (no_change s) a e
  finish_ok before (err c, s) a e = cc

  begun_ok :
      (m : Db A) (r : Result (Unit {0}) × Store) (a : A) → (begun m r).0 ≡ ok a → (m r.1).0 ≡ ok a
  unfolding begun
  begun_ok m (ok _, s) a e = finish_ok s.tables (m s) a e
  begun_ok m (err c, s) a e = cc

  -- A transaction that returns has run its body on the same tables, and the body has returned.
  pub transaction_ok :
      (m : Db A) (s : Store) (a : A)
      → (transaction m s).0 ≡ ok a
      → (s' : Store) × (s'.tables ≡ s.tables) × ((m s').0 ≡ ok a)
  unfolding transaction
  transaction_ok m s a e = (
    (no_change s).1,
    (no_change-keeps {P = λ t. t ≡ s.tables}).at s refl,
    begun_ok m (no_change s) a e,
  )
