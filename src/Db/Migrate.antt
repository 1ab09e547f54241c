-- ===== src/Db/Migrate.antt =====
-- backend/internal/db/migrate.go. What a migration file says and what the database does with it are
-- parameters; of the state of the database the rest is `content`. File names are compared rune by
-- rune, which for UTF-8 is the order of their bytes.
pub mod Sorting
pub mod Laws
pub mod Again
use tax_ocr.Prelude.{
  ℕ, ltb, ◌==◌, Bool, true, false, not, ◌&&◌, ◌||◌, if◌then◌else◌, Option, none, some, Text, ◌=ₜ◌,
  runes, List, [], ◌∷◌, ◌++◌,
}
use tax_ocr.GoStrings.{has_suffix}

pub record DirEntry : Type 0 where
  pub name : Text
  pub is_dir : Bool

pub data MigrationError : Type 0 where
  connect_failed create_failed read_dir_failed list_failed read_failed begin_failed exec_failed
        record_failed commit_failed :
      MigrationError

is_migration : DirEntry → Bool
is_migration e = not e.is_dir && has_suffix e.name (runes ".sql")

sql_files : List DirEntry → List Text
sql_files [] = []
sql_files (e ∷ es) = let rest = sql_files es in if is_migration e then e.name ∷ rest else rest

-- `<=` on strings
unfoldable pub at_most : Text → Text → Bool
at_most [] t = true
at_most (x ∷ s) [] = false
at_most (x ∷ s) (y ∷ t) = let rest = at_most s t in ltb x y || (x == y && rest)

insert : Text → List Text → List Text
insert x [] = x ∷ []
insert x (y ∷ ys) = let rest = insert x ys in if at_most x y then x ∷ y ∷ ys else y ∷ rest

-- sort.Strings
unfoldable pub sorted : List Text → List Text
unfolding insert
sorted [] = []
sorted (x ∷ xs) = insert x (sorted xs)

unfoldable pub mem : Text → List Text → Bool
mem x [] = false
mem x (y ∷ ys) = let rest = mem x ys in x =ₜ y || rest

-- The files in the order in which they are run.
unfoldable pub migration_files : List DirEntry → List Text
unfolding has_suffix is_migration sql_files
migration_files entries = sorted (sql_files entries)

failing : List Bool → Bool
failing [] = false
failing (b ∷ rest) = b

later : List Bool → List Bool
later [] = []
later (b ∷ rest) = rest

module _ {D : Type 0} (read_file : Text → Option Text) (exec_sql : Text → D → Option D) where
  -- `versions` is the table schema_migrations, without a row before it is created, and `faults` says
  -- of each of the calls to come whether it fails.
  pub record Database : Type 0 where
    pub content : D
    pub versions : List Text
    pub faults : List Bool

  -- `none` is nil.
  abbrev pub Outcome : Type 0
  Outcome = Option MigrationError × Database

  next : Database → Database
  next s = record s { faults = later s.faults }

  commit : Database → Database → Outcome
  commit before s =
      if failing s.faults
      then (some commit_failed, record before { faults = later s.faults })
      else (none, next s)

  -- INSERT INTO schema_migrations, whose key is the version
  record_version : Text → Database → Database → Outcome
  record_version name before s =
      if failing s.faults || mem name s.versions
      then (some record_failed, record before { faults = later s.faults })
      else commit before (record (next s) { versions = s.versions ++ name ∷ [] })

  executed : Text → Option D → Database → Outcome
  executed name none s = (some exec_failed, next s)
  executed name (some c) s =
      if failing s.faults
      then (some exec_failed, next s)
      else record_version name s (record (next s) { content = c })

  unfoldable pub run_in_tx : (name sql : Text) → Database → Outcome
  unfolding commit record_version executed failing later next
  run_in_tx name sql s =
      if failing s.faults
      then (some begin_failed, next s)
      else executed name (exec_sql sql s.content) (next s)

  apply_file : Text → Option Text → Database → Outcome
  apply_file name none s = (some read_failed, s)
  apply_file name (some sql) s = run_in_tx name sql s

  and_then : Outcome → (Database → Outcome) → Outcome
  and_then (none, s) k = k s
  and_then (some e, s) k = (some e, s)

  run_pending : (applied files : List Text) → Database → Outcome
  run_pending applied [] s = (none, s)
  run_pending applied (name ∷ files) s =
      if mem name applied
      then run_pending applied files s
      else and_then (apply_file name (read_file name) s) (run_pending applied files)

  -- What comes after the directory was read.
  run_files : List Text → Database → Outcome
  run_files files s =
      if failing s.faults then (some list_failed, next s) else run_pending s.versions files (next s)

  with_dir : (List DirEntry → Database → Outcome) → Option (List DirEntry) → Database → Outcome
  with_dir k none s = (some read_dir_failed, s)
  with_dir k (some entries) s = k entries s

  -- Connect, and create the table if it is not there.
  prepared : (Database → Outcome) → Database → Outcome
  prepared k s =
      if failing s.faults
      then (some connect_failed, next s)
      else if failing (later s.faults)
      then (some create_failed, next (next s))
      else k (next (next s))

  unfoldable pub run_migrations : Option (List DirEntry) → Database → Outcome
  unfolding apply_file and_then run_pending run_files with_dir prepared failing later next
  run_migrations dir = prepared (with_dir (λ entries. run_files (migration_files entries)) dir)

  -- INSERT … ON CONFLICT DO NOTHING
  stamp : Text → Database → Outcome
  stamp name s =
      if failing s.faults
      then (some record_failed, next s)
      else if mem name s.versions
      then (none, next s)
      else (none, record (next s) { versions = s.versions ++ name ∷ [] })

  stamp_files : List Text → Database → Outcome
  stamp_files [] s = (none, s)
  stamp_files (name ∷ files) s = and_then (stamp name s) (stamp_files files)

  unfoldable pub stamp_migrations : Option (List DirEntry) → Database → Outcome
  unfolding and_then stamp stamp_files with_dir prepared failing later next has_suffix is_migration
      sql_files
  stamp_migrations dir = prepared (with_dir (λ entries. stamp_files (sql_files entries)) dir)
