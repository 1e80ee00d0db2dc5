-- ===== src/Migrate.antt =====
-- migrate.py: the command that migrates a database of version 1, with its snapshot. Databases and
-- SQLite's statements are parameters.
use text.Mathlib.Text.{starts_with}
use cnp_v1_starter_kit.Prelude.{
  ℕ, ℤ, pos, Bool, true, false, not, ◌&&◌, ◌||◌, List, [], ◌∷◌, Option, none, some, String, str_eq,
  is_blank, strip, is_space, split, is_empty, default, if◌then◌else◌, map, select, any, find,
}
use cnp_v1_starter_kit.Ops.Summaries.{Row, tuple, with_names, fetched, int_leb}
pub mod Runs

-- A statement: the database after it, "duplicate column name", or another error.
pub data Executed {ℓ} (D : Type ℓ) : Type ℓ where
  executed : D → Executed D
  duplicate_column : Executed D
  failed : Executed D

-- The database on the connection after the statements, or where one of them raised.
pub data Run {ℓ} (D : Type ℓ) : Type ℓ where
  completed aborted : D → Run D

-- The files: the database, the snapshot, and the SQL of the migration.
pub record Files {ℓ} (D : Type ℓ) : Type ℓ where
  pub source : Option D
  pub snapshot : Option D
  pub migration_sql : Option String

-- `sql.split(";")`, without spaces around the parts and without empty parts.
unfoldable pub statements : String → List String
statements sql = select (λ s. not (is_blank s)) (map (strip is_space) (split b';' sql))

-- `rows == [("ok",)]`: a row with names is never equal to a tuple.
abbrev pub is_ok : List (Row String) → Bool
is_ok (tuple s ∷ []) = str_eq s "ok"
is_ok _ = false

-- `saved` is what the file holds when the connection is closed without a commit: a statement that
-- defines tables is committed at once.
module _ {ℓ} {D : Type ℓ} (execute : String → D → Executed D) (saved : D → D)
    (row_counts : D → List (String × ℤ)) (integrity : D → List String) where
  abbrev after_statement : Executed D → (D → Run D) → D → Run D
  after_statement (executed d') next d = next d'
  after_statement duplicate_column next d = next d
  after_statement failed next d = aborted d

  -- A part that starts with a comment is passed over, with what follows the comment.
  unfoldable pub run_statements : List String → D → Run D
  run_statements [] d = completed d
  run_statements (s ∷ ss) d =
      let rest : D → Run D = run_statements ss in
      if starts_with s "--" then rest d else after_statement (execute s d) rest d

  -- On a dry run the savepoint is rolled back, also where the connection is closed.
  abbrev pub rolled_back : Bool → D → Run D → Run D
  rolled_back true d (completed d') = completed d
  rolled_back true d (aborted d') = aborted d
  rolled_back false d r = r

  unfoldable pub run_migration : String → Bool → D → Run D
  run_migration sql dry_run d = rolled_back dry_run d (run_statements (statements sql) d)

  -- The rows of this connection have names.
  abbrev pub integrity_check : D → List String
  integrity_check d = if is_ok (map (fetched true) (integrity d)) then [] else integrity d

  -- Whether a table has fewer rows than before.
  abbrev pub spot_check : List (String × ℤ) → List (String × ℤ) → Bool
  spot_check [] post = false
  spot_check ((table, n) ∷ pre) post =
      not (int_leb n (default (pos 0) (find table post))) || spot_check pre post

  abbrev pub exit_code : D → D → ℕ
  exit_code d d' =
      if not (is_empty (integrity_check d'))
      then 2
      else if spot_check (row_counts d) (row_counts d')
      then 2
      else 0

  abbrev pub finished : Bool → D → Run D → Files D → Files D × ℕ
  finished true d (completed d') files = (files, 0)
  finished true d (aborted d') files = (files, 1)
  finished false d (completed d') files = (record files { source = some d' }, exit_code d d')
  finished false d (aborted d') files = (record files { source = some (saved d') }, 1)

  abbrev pub migrate : Bool → Option D → Option String → Files D → Files D × ℕ
  migrate dry_run none sql files = (files, 1)
  migrate dry_run (some d) none files = (files, 1)
  migrate dry_run (some d) (some sql) files =
      finished dry_run d (run_migration sql dry_run d)
        (if dry_run then files else record files { snapshot = some d })

  abbrev pub restore : Option D → Files D → Files D × ℕ
  restore none files = (files, 3)
  restore (some d) files = (record files { source = some d }, 0)

  -- The files afterwards, and the exit code.
  unfoldable pub main : Bool → Bool → Files D → Files D × ℕ
  main rollback dry_run files =
      if rollback
      then restore files.snapshot files
      else migrate dry_run files.source files.migration_sql files
