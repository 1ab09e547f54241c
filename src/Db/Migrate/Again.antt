-- ===== src/Db/Migrate/Again.antt =====
-- A second run of the migrations, and a run after the stamp, apply nothing.
use tax_ocr.Prelude.{
  ◌≡◌, refl, sym, ap, ◌∙◌, subst, true, false, Option, none, some, Text, ◌=ₜ◌, =ₜ→eq, =ₜ_refl, All,
  All-mono, List, [], ◌∷◌, ◌++◌, Bool-cases, inl, inr, arith,
}
use mathlib.Core.Option.{some-injective}
use tax_ocr.Db.Migrate.Sorting.{All-sorted}
use tax_ocr.Db.Migrate.{
  DirEntry, sql_files, mem, migration_files, failing, later, Database, Outcome, next, and_then,
  with_dir, prepared, run_migrations, stamp, stamp_files, stamp_migrations,
}
use tax_ocr.Db.Migrate.Laws.{pending, replay, run_migrations_lem}

-- Each of the files is recorded.
abbrev pub AllIn : List Text → List Text → Type 0
AllIn versions files = All (λ x. mem x versions ≡ true) files

mem-append_left : (x : Text) (xs ys : List Text) → mem x xs ≡ true → mem x (xs ++ ys) ≡ true
unfolding mem
mem-append_left x [] ys h = cc
mem-append_left x (y ∷ xs) ys h = ground (arith, mem-append_left x xs ys)

mem-append_right : (x : Text) (xs ys : List Text) → mem x ys ≡ true → mem x (xs ++ ys) ≡ true
unfolding mem
mem-append_right x [] ys h = h
mem-append_right x (y ∷ xs) ys h = ground (arith, mem-append_right x xs ys h)

mem-pending :
    (x : Text) (vs files : List Text)
    → mem x files ≡ true
    → mem x vs ≡ false
    → mem x (pending vs files) ≡ true
unfolding mem pending
mem-pending x vs [] h k = cc
mem-pending x vs (y ∷ ys) h k = elim (Bool-cases (x =ₜ y)) [
  | inl e ↦ rw (subst (λ z. mem z vs ≡ false) (=ₜ→eq x y e) k) (rw e refl)
  | inr e ↦ elim (Bool-cases (mem y vs)) [
    | inl g ↦ rw g (mem-pending x vs ys (ground (arith, e, h)) k)
    | inr g ↦ rw g (rw e (mem-pending x vs ys (ground (arith, e, h)) k))
  ]
]

AllIn-self : (files : List Text) → AllIn files files
unfolding mem
AllIn-self [] = tt
AllIn-self (x ∷ xs) =
    (ground (arith, =ₜ_refl x), All-mono _ _ xs (λ y h. ground (arith, h)) (AllIn-self xs))

-- After a run of all that is pending everything is recorded.
AllIn-pending : (vs files : List Text) → AllIn (vs ++ pending vs files) files
AllIn-pending vs files =
    All-mono _ _ files
      (λ x h. elim (Bool-cases (mem x vs)) [
        | inl e ↦ mem-append_left x vs (pending vs files) e
        | inr e ↦ mem-append_right x vs (pending vs files) (mem-pending x vs files h e)
      ])
      (AllIn-self files)

pending-AllIn : (vs files : List Text) → AllIn vs files → pending vs files ≡ []
unfolding pending
pending-AllIn vs [] h = refl
pending-AllIn vs (x ∷ xs) h = rw h.0 (pending-AllIn vs xs h.1)

no_append : (xs ys : List Text) → [] ≡ xs ++ ys → xs ≡ []
no_append [] ys e = refl
no_append (x ∷ xs) ys e = absurd (ground (arith, e))

append_nil : (xs ys : List Text) → ys ≡ [] → xs ++ ys ≡ xs
append_nil [] ys e = e
append_nil (x ∷ xs) ys e = ap (λ zs. x ∷ zs) (append_nil xs ys e)

module _ {D : Type 0} (read_file : Text → Option Text) (exec_sql : Text → D → Option D) where
  abbrev Db : Type 0
  Db = Database read_file exec_sql

  -- Where everything is recorded a run changes nothing.
  nothing_to_run :
      (entries : List DirEntry) (s : Db)
      → AllIn s.versions (migration_files entries)
      → ((run_migrations read_file exec_sql (some entries) s).1.content ≡ s.content)
        × ((run_migrations read_file exec_sql (some entries) s).1.versions ≡ s.versions)
  unfolding replay
  nothing_to_run entries s all =
      let p = (run_migrations_lem read_file exec_sql entries s).1 in
      let none_done =
        no_append p.done p.left
          (sym (pending-AllIn s.versions (migration_files entries) all) ∙ p.split) in
      (
        sym (
            some-injective s.content _ (
              subst
                (λ done.
                  replay read_file exec_sql done s.content
                  ≡ some (run_migrations read_file exec_sql (some entries) s).1.content)
                none_done p.replayed)),
        p.recorded ∙ append_nil s.versions p.done none_done,
      )

  -- After a run that returned no error, a run of the same directory on a database with the same
  -- records changes nothing, whichever of its calls fail.
  pub run_migrations_again :
      (entries : List DirEntry) (s s' : Database read_file exec_sql)
      → (run_migrations read_file exec_sql (some entries) s).0 ≡ none
      → s'.versions ≡ (run_migrations read_file exec_sql (some entries) s).1.versions
      → ((run_migrations read_file exec_sql (some entries) s').1.content ≡ s'.content)
        × ((run_migrations read_file exec_sql (some entries) s').1.versions ≡ s'.versions)
  run_migrations_again entries s s' works same =
      let p = (run_migrations_lem read_file exec_sql entries s).1 in
      let files = migration_files entries in
      let all_done = p.split ∙ append_nil p.done p.left (p.complete works) in
      nothing_to_run entries s' (
        subst (λ vs. AllIn vs files)
          (ap (λ done. s.versions ++ done) all_done ∙ sym p.recorded ∙ sym same)
          (AllIn-pending s.versions files))

  -- What the stamp of a list of files leaves.
  stamp_keeps :
      (x name : Text) (s : Db)
      → mem x s.versions ≡ true
      → mem x (stamp read_file exec_sql name s).1.versions ≡ true
  unfolding stamp next
  stamp_keeps x name s h = elim (Bool-cases (failing s.faults)) [
    | inl e ↦ rw e h
    | inr e ↦ rw e (elim (Bool-cases (mem name s.versions)) [
      | inl g ↦ rw g h
      | inr g ↦ rw g (mem-append_left x s.versions (name ∷ []) h)
    ])
  ]

  stamp_adds :
      (name : Text) (s : Db)
      → ((stamp read_file exec_sql name s).1.content ≡ s.content)
        × ((stamp read_file exec_sql name s).0 ≡ none
            → mem name (stamp read_file exec_sql name s).1.versions ≡ true)
  unfolding stamp next
  stamp_adds name s = elim (Bool-cases (failing s.faults)) [
    | inl e ↦ rw e (refl, λ q. absurd (ground (arith, q)))
    | inr e ↦ rw e (elim (Bool-cases (mem name s.versions)) [
      | inl g ↦ rw g (refl, λ q. g)
      | inr g ↦
          rw g (refl, λ q. mem-append_right name s.versions (name ∷ []) (AllIn-self (name ∷ [])).0)
    ])
  ]

  and_then_keeps :
      (P : List Text → Type 0) (o : Outcome read_file exec_sql)
      (k : Db → Outcome read_file exec_sql)
      → P o.1.versions
      → ((s : Db) → P s.versions → P (k s).1.versions)
      → P (and_then read_file exec_sql o k).1.versions
  unfolding and_then
  and_then_keeps P (none, s) k h keep = keep s h
  and_then_keeps P (some e, s) k h keep = h

  stamp_files_keeps :
      (x : Text) (files : List Text) (s : Db)
      → mem x s.versions ≡ true
      → mem x (stamp_files read_file exec_sql files s).1.versions ≡ true
  unfolding stamp_files
  stamp_files_keeps x [] s h = h
  stamp_files_keeps x (name ∷ files) s h =
      and_then_keeps (λ vs. mem x vs ≡ true) (stamp read_file exec_sql name s)
        (stamp_files read_file exec_sql files) (stamp_keeps x name s h)
        (λ s' k. stamp_files_keeps x files s' k)

  -- The stamp runs nothing, and records every file where it returns no error.
  abbrev Stamped : List Text → Db → Outcome read_file exec_sql → Type 0
  Stamped files s o = (o.1.content ≡ s.content) × (o.0 ≡ none → AllIn o.1.versions files)

  and_then-Stamped :
      (name : Text) (files : List Text) (s : Db) (o : Outcome read_file exec_sql)
      → o.1.content ≡ s.content
      → (o.0 ≡ none → mem name o.1.versions ≡ true)
      → ((s' : Db) → Stamped files s' (stamp_files read_file exec_sql files s'))
      → Stamped
          (name ∷ files)
          s
          (and_then read_file exec_sql o (stamp_files read_file exec_sql files))
  unfolding and_then
  and_then-Stamped name files s (none, s') same adds lem =
      let (content, all) = lem s' in
      (content ∙ same, λ q. (stamp_files_keeps name files s' (adds refl), all q))
  and_then-Stamped name files s (some e, s') same adds lem = (same, λ q. absurd (ground (arith, q)))

  stamp_files_lem :
      (files : List Text) (s : Db) → Stamped files s (stamp_files read_file exec_sql files s)
  unfolding stamp_files
  stamp_files_lem [] s = (refl, λ q. tt)
  stamp_files_lem (name ∷ files) s =
      and_then-Stamped name files s (stamp read_file exec_sql name s) (stamp_adds name s).0
        (stamp_adds name s).1 (stamp_files_lem files)

  stamp_migrations_lem :
      (entries : List DirEntry) (s : Db)
      → Stamped (sql_files entries) s (stamp_migrations read_file exec_sql (some entries) s)
  unfolding stamp_migrations with_dir prepared next
  stamp_migrations_lem entries s = elim (Bool-cases (failing s.faults)) [
    | inl e ↦ rw e (refl, λ q. absurd (ground (arith, q)))
    | inr e ↦ rw e (elim (Bool-cases (failing (later s.faults))) [
      | inl g ↦ rw g (refl, λ q. absurd (ground (arith, q)))
      | inr g ↦ rw g (stamp_files_lem (sql_files entries) _)
    ])
  ]

  -- The stamp runs no migration, and a run after a stamp that returned no error runs none either,
  -- whichever of its calls fail.
  pub run_migrations-stamp_migrations :
      (entries : List DirEntry) (s s' : Database read_file exec_sql)
      → (stamp_migrations read_file exec_sql (some entries) s).0 ≡ none
      → s'.versions ≡ (stamp_migrations read_file exec_sql (some entries) s).1.versions
      → ((stamp_migrations read_file exec_sql (some entries) s).1.content ≡ s.content)
        × ((run_migrations read_file exec_sql (some entries) s').1.content ≡ s'.content)
        × ((run_migrations read_file exec_sql (some entries) s').1.versions ≡ s'.versions)
  unfolding migration_files
  run_migrations-stamp_migrations entries s s' works same =
      let (content, all) = stamp_migrations_lem entries s in
      let (first, second) = nothing_to_run entries s' (
        All-sorted (λ x. mem x s'.versions ≡ true) (sql_files entries)
          (subst (λ vs. AllIn vs (sql_files entries)) (sym same) (all works))) in
      (content, first, second)
