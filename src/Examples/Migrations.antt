-- ===== src/Examples/Migrations.antt =====
-- Two migrations, of which one is recorded.
use tax_ocr.Prelude.{◌≡◌, refl, false, runes, Option, none, some, Text, ◌=ₜ◌, List, [], ◌∷◌, ◌++◌}
use tax_ocr.GoStrings.{has_prefix}
use tax_ocr.Db.Migrate.{
  DirEntry, Database, mem, at_most, sorted, migration_files, run_in_tx, run_migrations,
  stamp_migrations,
}
use tax_ocr.Db.Migrate.Sorting.{InOrder}
use tax_ocr.Db.Migrate.Laws.{pending, Progress, run_migrations_lem}
use tax_ocr.Db.Migrate.Again.{run_migrations_again, run_migrations-stamp_migrations}

abbrev file : Text → DirEntry
file name = record { name = name; is_dir = false }

abbrev dir : List DirEntry
dir = file (runes "002_b.sql") ∷ file (runes "readme") ∷ file (runes "001_a.sql") ∷ []

-- A file says its own name, and the database keeps what was run.
abbrev reads : Text → Option Text
reads name = some name

abbrev runs : Text → List Text → Option (List Text)
runs sql done = some (done ++ sql ∷ [])

abbrev empty : Database reads runs
empty = record { content = []; versions = []; faults = [] }

run_migrations_lem_example :
    InOrder (migration_files dir)
    × Progress reads runs
        (pending [] (migration_files dir))
        empty
        (run_migrations reads runs (some dir) empty)
run_migrations_lem_example = run_migrations_lem reads runs dir empty

both_run :
    (run_migrations reads runs (some dir) empty).1.content
    ≡ runes "001_a.sql" ∷ runes "002_b.sql" ∷ []
unfolding run_migrations run_in_tx migration_files sorted at_most mem has_prefix ◌=ₜ◌
both_run = refl

works : (run_migrations reads runs (some dir) empty).0 ≡ none
unfolding run_migrations run_in_tx migration_files sorted at_most mem has_prefix ◌=ₜ◌
works = refl

run_migrations_again_example :
    let before = record (run_migrations reads runs (some dir) empty).1 { faults = [] } in
    ((run_migrations reads runs (some dir) before).1.content ≡ before.content)
    × ((run_migrations reads runs (some dir) before).1.versions ≡ before.versions)
run_migrations_again_example =
    run_migrations_again reads runs dir empty
      (record (run_migrations reads runs (some dir) empty).1 { faults = [] }) works refl

stamps : (stamp_migrations reads runs (some dir) empty).0 ≡ none
unfolding stamp_migrations mem has_prefix ◌=ₜ◌
stamps = refl

run_migrations-stamp_migrations_example :
    let after = (stamp_migrations reads runs (some dir) empty).1 in
    (after.content ≡ empty.content)
    × ((run_migrations reads runs (some dir) after).1.content ≡ after.content)
    × ((run_migrations reads runs (some dir) after).1.versions ≡ after.versions)
run_migrations-stamp_migrations_example =
    run_migrations-stamp_migrations reads runs dir empty
      (stamp_migrations reads runs (some dir) empty).1 stamps refl
