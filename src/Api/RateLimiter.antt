-- ===== src/Api/RateLimiter.antt =====
-- backend/internal/api/ratelimit.go. Times and the window are in nanoseconds; the mutex makes each
-- call of `allow` and each sweep one step.
pub mod Laws
use tax_ocr.Prelude.{
  ℕ, suc, ◌+◌, ltb, leb, String, ◌=ₛ◌, Bool, true, false, if◌then◌else◌, Option, none, some, List,
  [], ◌∷◌,
}

pub record Entry : Type 0 where
  pub count : ℕ
  pub reset : ℕ

-- The map rl.entries.
abbrev pub Entries : Type 0
Entries = String → Option Entry

put : String → Entry → Entries → Entries
put key e entries k = if k =ₛ key then some e else entries k

-- The deletion in the sweep: `if now.After(v.reset) { delete(rl.entries, k) }`.
unfoldable pub drop_expired : ℕ → Option Entry → Option Entry
drop_expired now none = none
drop_expired now (some e) = if ltb e.reset now then none else some e

-- One pass of the goroutine of newRateLimiter.
unfoldable pub sweep : ℕ → Entries → Entries
sweep now entries key = drop_expired now (entries key)

pub data Event : Type 0 where
  call : (now : ℕ) (key : String) → Event
  clean : (now : ℕ) → Event

module _ (limit window : ℕ) where
  first_call : ℕ → Entry
  first_call now = record { count = 1; reset = now + window }

  decide : ℕ → String → Entries → Option Entry → Bool × Entries
  decide now key entries none = (true, put key (first_call now) entries)
  decide now key entries (some e) =
      if ltb e.reset now
      then (true, put key (first_call now) entries)
      else if leb limit e.count
      then (false, entries)
      else (true, put key (record e { count = suc (e.count) }) entries)

  unfoldable pub allow : ℕ → String → Entries → Bool × Entries
  unfolding put first_call decide
  allow now key entries = decide now key entries (entries key)

  -- The answers to a sequence of calls, in which the sweep runs now and then.
  unfoldable pub answers : List Event → Entries → List Bool
  answers [] entries = []
  answers (call now key ∷ events) entries =
      let (answer, entries') = allow now key entries in answer ∷ answers events entries'
  answers (clean now ∷ events) entries = answers events (sweep now entries)

  -- How many calls with this key are allowed.
  unfoldable pub allowed : String → List Event → Entries → ℕ
  allowed key [] entries = 0
  allowed key (call now k ∷ events) entries =
      let (answer, entries') = allow now k entries in
      let rest = allowed key events entries' in
      if k =ₛ key then (if answer then suc rest else rest) else rest
  allowed key (clean now ∷ events) entries = allowed key events (sweep now entries)
