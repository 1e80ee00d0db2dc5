-- ===== src/Tests/Migrate.antt =====
-- Runs of the migration on a database that is the list of its statements.
use cnp_v1_starter_kit.Prelude.{false, ℤ, pos, List, [], ◌∷◌, none, some, String, ◌≡◌, refl}
use cnp_v1_starter_kit.Migrate.{
  Executed, executed, Files, run_migration, completed, run_statements, statements,
}

abbrev execute : String → List String → Executed (List String)
execute s d = executed (s ∷ d)

abbrev saved : List String → List String
saved d = d

abbrev row_counts : List String → List (String × ℤ)
row_counts d = ("nodes", pos 2) ∷ []

abbrev integrity : List String → List String
integrity d = "ok" ∷ []

abbrev sql : String
sql = "PRAGMA foreign_keys = OFF;\n-- the uid\nALTER TABLE nodes ADD COLUMN device_uid TEXT;\n"

abbrev files : Files (List String)
files = record { source = some []; snapshot = none; migration_sql = some sql }

-- The statement behind the comment is not run.
skips :
    run_migration execute saved row_counts integrity sql false []
    ≡ completed ("PRAGMA foreign_keys = OFF" ∷ [])
unfolding run_migration run_statements statements
skips = refl
