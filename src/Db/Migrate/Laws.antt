-- ===== src/Db/Migrate/Laws.antt =====
-- What a run of the migrations does: all that are pending in their order, or those before the first
-- that fails.
use tax_ocr.Prelude.{
  ◌≡◌, ◌≢◌, refl, sym, ap, ◌∙◌, Bool, ◌||◌, if◌then◌else◌, Option, none, some, Text, List, [], ◌∷◌,
  ◌++◌, ◌⊎◌, Bool-cases, inl, inr, arith,
}
use tax_ocr.Db.Migrate.Sorting.{InOrder, sorted-InOrder}
use tax_ocr.Db.Migrate.{
  DirEntry, sql_files, mem, migration_files, failing, later, Database, Outcome, next, commit,
  record_version, executed, run_in_tx, apply_file, and_then, run_pending, run_files, with_dir,
  prepared, run_migrations,
}

-- The files that are not applied yet.
unfoldable pub pending : (applied files : List Text) → List Text
pending applied [] = []
pending applied (x ∷ xs) = let rest = pending applied xs in if mem x applied then rest else x ∷ rest

append_nil : {A : Type 0} (xs : List A) → xs ++ [] ≡ xs
append_nil [] = refl
append_nil (x ∷ xs) = ap (λ ys. x ∷ ys) (append_nil xs)

append_assoc : {A : Type 0} (xs ys zs : List A) → (xs ++ ys) ++ zs ≡ xs ++ (ys ++ zs)
append_assoc [] ys zs = refl
append_assoc (x ∷ xs) ys zs = ap (λ ws. x ∷ ws) (append_assoc xs ys zs)

module _ {D : Type 0} (read_file : Text → Option Text) (exec_sql : Text → D → Option D) where
  abbrev with_sql : Option Text → D → Option D
  with_sql none c = none
  with_sql (some sql) c = exec_sql sql c

  abbrev after : (D → Option D) → Option D → Option D
  after k none = none
  after k (some c) = k c

  -- The files run one after the other, `none` where one cannot be read or run.
  unfoldable pub replay : List Text → D → Option D
  replay [] c = some c
  replay (name ∷ names) c = after (replay names) (with_sql (read_file name) c)

  abbrev Db : Type 0
  Db = Database read_file exec_sql

  abbrev Out : Type 0
  Out = Outcome read_file exec_sql

  -- An error, and nothing changed.
  abbrev Undone : Db → Out → Type 0
  Undone s o = (o.0 ≢ none) × (o.1.content ≡ s.content) × (o.1.versions ≡ s.versions)

  abbrev Done : D → List Text → Out → Type 0
  Done c vs o = (o.0 ≡ none) × (o.1.content ≡ c) × (o.1.versions ≡ vs)

  commit_ends :
      (before s : Db)
      → Done s.content s.versions (commit read_file exec_sql before s)
        ⊎ Undone before (commit read_file exec_sql before s)
  unfolding commit next
  commit_ends before s = elim (Bool-cases (failing s.faults)) [
    | inl e ↦ rw e (inr ((λ q. cc), refl, refl))
    | inr e ↦ rw e (inl (refl, refl, refl))
  ]

  record_version_ends :
      (name : Text) (before s : Db)
      → Done s.content (s.versions ++ name ∷ []) (record_version read_file exec_sql name before s)
        ⊎ Undone before (record_version read_file exec_sql name before s)
  unfolding record_version next
  record_version_ends name before s = elim (Bool-cases (failing s.faults || mem name s.versions)) [
    | inl e ↦ rw e (inr ((λ q. cc), refl, refl))
    | inr e ↦ rw e (commit_ends before _)
  ]

  -- What a file leaves behind: itself applied, or nothing changed.
  abbrev Applied : Text → Option D → Db → Out → Type 0
  Applied name run s o =
      ((c : D) × (run ≡ some c) × Done c (s.versions ++ name ∷ []) o) ⊎ Undone s o

  executed_ends :
      (name : Text) (run : Option D) (s : Db)
      → Applied name run s (executed read_file exec_sql name run s)
  unfolding executed next
  executed_ends name none s = inr ((λ q. cc), refl, refl)
  executed_ends name (some c) s = elim (Bool-cases (failing s.faults)) [
    | inl e ↦ rw e (inr ((λ q. cc), refl, refl))
    | inr e ↦
        rw e
          (elim (record_version_ends name s (record s { content = c; faults = later s.faults })) [
            | inl d ↦ inl (c, refl, d)
            | inr u ↦ inr u
          ])
  ]

  apply_file_ends :
      (name : Text) (file : Option Text) (s : Db)
      → Applied name (with_sql file s.content) s (apply_file read_file exec_sql name file s)
  unfolding apply_file run_in_tx next
  apply_file_ends name none s = inr ((λ q. cc), refl, refl)
  apply_file_ends name (some sql) s = elim (Bool-cases (failing s.faults)) [
    | inl e ↦ rw e (inr ((λ q. cc), refl, refl))
    | inr e ↦
        rw e (executed_ends name (exec_sql sql s.content) (record s { faults = later s.faults }))
  ]

  -- The files that were run: all of `files` where no error is returned, else those before the first
  -- that failed. They are run in their order, once each, and recorded.
  pub record Progress (files : List Text) (s : Database read_file exec_sql)
      (o : Outcome read_file exec_sql) : Type 0 where
    pub done : List Text
    pub left : List Text
    pub split : files ≡ done ++ left
    pub complete : o.0 ≡ none → left ≡ []
    pub replayed : replay done s.content ≡ some o.1.content
    pub recorded : o.1.versions ≡ s.versions ++ done

  no-Progress : (files : List Text) (s : Db) (o : Out) → Undone s o → Progress files s o
  unfolding replay
  no-Progress files s o (fails, same, versions) = record {
    done = [];
    left = files;
    split = refl;
    complete = λ q. absurd (fails q);
    replayed = ap some (sym same);
    recorded = versions ∙ sym (append_nil s.versions);
  }

  -- A file whose run ended so, and then the rest.
  step :
      (name : Text) (rest : List Text) (s : Db) (o : Out) (k : Db → Out)
      → Applied name (with_sql (read_file name) s.content) s o
      → ((s' : Db) → Progress rest s' (k s'))
      → Progress (name ∷ rest) s (and_then read_file exec_sql o k)
  unfolding and_then replay
  step name rest s (none, s') k (inl (c, run, (_, content, versions))) h =
      let p = h s' in
      record {
        done = name ∷ p.done;
        left = p.left;
        split = ap (λ xs. name ∷ xs) p.split;
        complete = p.complete;
        replayed = rw (run, ← content) p.replayed;
        recorded =
            p.recorded
            ∙ ap (λ vs. vs ++ p.done) versions
            ∙ append_assoc s.versions (name ∷ []) p.done;
      }
  step name rest s (none, s') k (inr (fails, _, _)) h = absurd (fails refl)
  step name rest s (some e, s') k (inl (c, run, (works, _, _))) h = absurd (ground (arith, works))
  step name rest s (some e, s') k (inr undone) h = no-Progress (name ∷ rest) s (some e, s') undone

  run_pending-Progress :
      (applied files : List Text) (s : Db)
      → Progress (pending applied files) s (run_pending read_file exec_sql applied files s)
  unfolding run_pending pending replay
  run_pending-Progress applied [] s = record {
    done = [];
    left = [];
    split = refl;
    complete = λ q. refl;
    replayed = refl;
    recorded = sym (append_nil s.versions);
  }
  run_pending-Progress applied (name ∷ files) s = elim (Bool-cases (mem name applied)) [
    | inl e ↦ rw e (run_pending-Progress applied files s)
    | inr e ↦ rw e (
        step name (pending applied files) s (apply_file read_file exec_sql name (read_file name) s)
          (run_pending read_file exec_sql applied files) (apply_file_ends name (read_file name) s)
          (run_pending-Progress applied files))
  ]

  -- The faults to come make no difference.
  afresh :
      (files : List Text) (s : Db) (fs : List Bool) (o : Out)
      → Progress files (record s { faults = fs }) o
      → Progress files s o
  afresh files s fs o p = record {
    done = p.done;
    left = p.left;
    split = p.split;
    complete = p.complete;
    replayed = p.replayed;
    recorded = p.recorded;
  }

  progress :
      (entries : List DirEntry) (s : Db)
      → Progress
          (pending s.versions (migration_files entries))
          s
          (run_migrations read_file exec_sql (some entries) s)
  unfolding run_migrations with_dir prepared run_files next
  progress entries s = elim (Bool-cases (failing s.faults)) [
    | inl e ↦ rw e (no-Progress _ s _ ((λ q. cc), refl, refl))
    | inr e ↦ rw e (elim (Bool-cases (failing (later s.faults))) [
      | inl g ↦ rw g (no-Progress _ s _ ((λ q. cc), refl, refl))
      | inr g ↦ rw g (elim (Bool-cases (failing (later (later s.faults)))) [
        | inl h ↦ rw h (no-Progress _ s _ ((λ q. cc), refl, refl))
        | inr h ↦ rw h (
            afresh _ s (later (later (later s.faults))) _
              (run_pending-Progress s.versions (migration_files entries) _))
      ])
    ])
  ]

  -- The pending files are run in the order of their names, once each, and recorded: all of them where
  -- the run returns no error, and else those before the first that failed, of which nothing is left.
  pub run_migrations_lem :
      (entries : List DirEntry) (s : Database read_file exec_sql)
      → InOrder (migration_files entries)
        × Progress
            (pending s.versions (migration_files entries))
            s
            (run_migrations read_file exec_sql (some entries) s)
  unfolding migration_files
  run_migrations_lem entries s = (sorted-InOrder (sql_files entries), progress entries s)
