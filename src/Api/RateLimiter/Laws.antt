-- ===== src/Api/RateLimiter/Laws.antt =====
-- How many calls a window allows, and that the sweep makes no difference.
use tax_ocr.Prelude.{
  ℕ, suc, ◌+◌, ◌-◌, ◌≤◌, ltb, leb, leb→le, ◌<◌, min, max, String, ◌=ₛ◌, eq_iff, ◌≡◌, refl, sym, ap,
  ap₂, ◌∙◌, true, false, if◌then◌else◌, Bool-cases, inl, inr, Option, none, some, List, [], ◌∷◌,
  All, arith,
}
use tax_ocr.Api.RateLimiter.{
  Entry, Entries, put, drop_expired, sweep, Event, call, clean, first_call, decide, allow, answers,
  allowed,
}

-- How often the key is used.
unfoldable pub calls : String → List Event → ℕ
calls key [] = 0
calls key (call now k ∷ events) = let rest = calls key events in if k =ₛ key then suc rest else rest
calls key (clean now ∷ events) = calls key events

abbrev pub time_of : Event → ℕ
time_of (call now key) = now
time_of (clean now) = now

-- The events are in the order of time, none of them before `from`.
abbrev pub InOrder : ℕ → List Event → Type 0
InOrder from [] = Unit
InOrder from (e ∷ events) = (from ≤ time_of e) × InOrder (time_of e) events

-- The same calls without the sweeps.
unfoldable pub calls_only : List Event → List Event
calls_only [] = []
calls_only (call now k ∷ events) = call now k ∷ calls_only events
calls_only (clean now ∷ events) = calls_only events

-- The same entries but for expired ones.
abbrev Alike : ℕ → Entries → Entries → Type 0
Alike now entries others = (k : String) → drop_expired now (entries k) ≡ drop_expired now (others k)

drop_expired_twice :
    (from now : ℕ) (o : Option Entry)
    → from ≤ now
    → drop_expired now (drop_expired from o) ≡ drop_expired now o
unfolding drop_expired
drop_expired_twice from now none h = refl
drop_expired_twice from now (some e) h = ground arith

Alike-later :
    (from now : ℕ) (entries others : Entries)
    → from ≤ now
    → Alike from entries others
    → Alike now entries others
Alike-later from now entries others h alike k =
    sym (drop_expired_twice from now (entries k) h)
    ∙ ap (drop_expired now) (alike k)
    ∙ drop_expired_twice from now (others k) h

put-Alike :
    (now : ℕ) (key : String) (e : Entry) (entries others : Entries)
    → Alike now entries others
    → Alike now (put key e entries) (put key e others)
unfolding put
put-Alike now key e entries others alike k = ground (arith, alike k)

put_same : (key : String) (e : Entry) (entries : Entries) → put key e entries key ≡ some e
unfolding put
put_same key e entries = ground (arith, eq_iff key key)

room : (a b : ℕ) → leb a b ≡ false → b < a
room a b h = ground arith

module _ (limit window : ℕ) where
  -- A call while the window of its key is open.
  allow_open :
      (now : ℕ) (key : String) (entries : Entries) (e : Entry)
      → entries key ≡ some e
      → now ≤ e.reset
      → allow limit window now key entries ≡ (
          if leb limit e.count
          then (false, entries)
          else (true, put key (record e { count = suc (e.count) }) entries))
  unfolding allow decide
  allow_open now key entries e found h = rw found (ground arith)

  -- A call while no window of its key is open.
  allow_closed :
      (now : ℕ) (key : String) (entries : Entries)
      → drop_expired now (entries key) ≡ none
      → allow limit window now key entries ≡ (true, put key (first_call limit window now) entries)
  unfolding allow decide drop_expired
  allow_closed now key entries gone = closed (entries key) gone
    where
      closed :
          (o : Option Entry)
          → drop_expired now o ≡ none
          → decide limit window now key entries o
            ≡ (true, put key (first_call limit window now) entries)
      closed none gone = refl
      closed (some e) gone = ground arith

  -- A call does not touch the entries of other keys.
  allow_other :
      (now : ℕ) (k key : String) (entries : Entries)
      → (k =ₛ key) ≡ false
      → (allow limit window now k entries).1 key ≡ entries key
  unfolding allow decide put
  allow_other now k key entries differ = other (entries k)
    where
      apart : (e : Entry) → put k e entries key ≡ entries key
      apart e = ground (arith, eq_iff k key, eq_iff key k)

      other : (o : Option Entry) → (decide limit window now k entries o).1 key ≡ entries key
      other none = apart _
      other (some e) = elim (Bool-cases (ltb e.reset now)) [
        | inl p ↦ rw p (apart _)
        | inr p ↦ elim (Bool-cases (leb limit e.count)) [
          | inl q ↦ rw (p, q) refl
          | inr q ↦ rw (p, q) (apart _)
        ]
      ]

  allowed_in_window :
      (key : String) (events : List Event) (entries : Entries) (e : Entry)
      → entries key ≡ some e
      → All (λ x. time_of x ≤ e.reset) events
      → allowed limit window key events entries ≡ min (calls key events) (limit - e.count)
  unfolding allowed calls sweep drop_expired
  allowed_in_window key [] entries e found h = omega arith
  allowed_in_window key (call now k ∷ events) entries e found h = elim (Bool-cases (k =ₛ key)) [
    | inl p ↦
        rw ((eq_iff k key).0 p, (eq_iff key key).1 refl, allow_open now key entries e found h.0)
          (elim (Bool-cases (leb limit e.count)) [
            | inl q ↦ rw q (
                omega
                  (arith, leb→le limit e.count q, allowed_in_window key events entries e found h.1))
            | inr q ↦
                let e' : Entry = record e { count = suc (e.count) } in
                rw q (
                  omega (
                    arith,
                    room limit e.count q,
                    allowed_in_window key events (put key e' entries) e' (put_same key e' entries)
                        h.1,
                  ))
          ])
    | inr p ↦ rw p (
        allowed_in_window key events (allow limit window now k entries).1 e
          (allow_other now k key entries p ∙ found) h.1)
  ]
  allowed_in_window key (clean now ∷ events) entries e found h =
      allowed_in_window key events (sweep now entries) e (rw found (ground (arith, h.0))) h.1

  -- From a call of a key that has no open window on, and as long as the window lasts that it opens,
  -- whatever the other keys do and whenever the sweep runs, the first `limit` calls are allowed and no more; the first call is
  -- allowed even if the limit is 0.
  pub allowed_lem :
      (key : String) (now : ℕ) (events : List Event) (entries : Entries)
      → drop_expired now (entries key) ≡ none
      → All (λ x. time_of x ≤ now + window) events
      → allowed limit window key (call now key ∷ events) entries
        ≡ max 1 (min (calls key (call now key ∷ events)) limit)
  unfolding allowed calls first_call
  allowed_lem key now events entries gone h =
      rw ((eq_iff key key).1 refl, allow_closed now key entries gone)
        (omega (
          arith,
          allowed_in_window key events (put key (first_call limit window now) entries)
              (first_call limit window now) (put_same key _ entries) h,
        ))

  -- An expired entry counts as none.
  decide-drop_expired :
      (now : ℕ) (k : String) (entries : Entries) (o : Option Entry)
      → decide limit window now k entries (drop_expired now o) ≡ decide limit window now k entries o
  unfolding decide drop_expired
  decide-drop_expired now k entries none = refl
  decide-drop_expired now k entries (some e) = ground arith

  decide-Alike :
      (now : ℕ) (k : String) (o : Option Entry) (entries others : Entries)
      → Alike now entries others
      → ((decide limit window now k entries o).0 ≡ (decide limit window now k others o).0)
        × Alike now (decide limit window now k entries o).1 (decide limit window now k others o).1
  unfolding decide
  decide-Alike now k none entries others alike = (refl, put-Alike now k _ entries others alike)
  decide-Alike now k (some e) entries others alike = elim (Bool-cases (ltb e.reset now)) [
    | inl p ↦ rw p (refl, put-Alike now k _ entries others alike)
    | inr p ↦ elim (Bool-cases (leb limit e.count)) [
      | inl q ↦ rw (p, q) (refl, alike)
      | inr q ↦ rw (p, q) (refl, put-Alike now k _ entries others alike)
    ]
  ]

  allow-Alike :
      (now : ℕ) (k : String) (entries others : Entries)
      → Alike now entries others
      → ((allow limit window now k entries).0 ≡ (allow limit window now k others).0)
        × Alike now (allow limit window now k entries).1 (allow limit window now k others).1
  unfolding allow
  allow-Alike now k entries others alike =
      rw
        (
          ← decide-drop_expired now k entries (entries k),
          ← decide-drop_expired now k others (others k),
          alike k,
        )
        (decide-Alike now k (drop_expired now (others k)) entries others alike)

  answers-Alike :
      (from : ℕ) (events : List Event) (entries others : Entries)
      → InOrder from events
      → Alike from entries others
      → answers limit window events entries ≡ answers limit window (calls_only events) others
  unfolding answers calls_only sweep
  answers-Alike from [] entries others ordered alike = refl
  answers-Alike from (call now k ∷ events) entries others ordered alike =
      let (same, rest) =
        allow-Alike now k entries others (Alike-later from now entries others ordered.0 alike) in
      ap₂ (λ x xs. x ∷ xs) same (answers-Alike now events _ _ ordered.1 rest)
  answers-Alike from (clean now ∷ events) entries others ordered alike =
      answers-Alike now events (sweep now entries) others ordered.1 λ k.
        drop_expired_twice now now (entries k) (omega arith)
        ∙ Alike-later from now entries others ordered.0 alike k

  -- The sweep makes no difference to any answer, when and however often it runs.
  pub answers-calls_only :
      (from : ℕ) (events : List Event) (entries : Entries)
      → InOrder from events
      → answers limit window events entries ≡ answers limit window (calls_only events) entries
  answers-calls_only from events entries ordered =
      answers-Alike from events entries entries ordered (λ k. refl)
