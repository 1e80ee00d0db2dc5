-- ===== src/Migrate/Runs.antt =====
-- Runs of migrate.py: what they leave, and how they exit.
use cnp_v1_starter_kit.Prelude.{
  ℤ, true, false, List, [], ◌∷◌, some, String, is_empty, map, ◌≡◌, ◌⊎◌, refl, inl, inr,
}
use cnp_v1_starter_kit.Ops.Summaries.{fetched}
use cnp_v1_starter_kit.Migrate.{
  Executed, Run, completed, aborted, Files, is_ok, run_migration, exit_code, finished, main,
}

module _ {ℓ} {D : Type ℓ} (execute : String → D → Executed D) (saved : D → D)
    (row_counts : D → List (String × ℤ)) (integrity : D → List String) where
  never_ok : (xs : List String) → is_ok (map (fetched true) xs) ≡ false
  never_ok [] = refl
  never_ok (x ∷ []) = refl
  never_ok (x ∷ y ∷ xs) = refl

  code_two :
      (d d' : D)
      → is_empty (integrity d') ≡ false
      → exit_code execute saved row_counts integrity d d' ≡ 2
  code_two d d' rows = rw (never_ok (integrity d')) rw rows refl

  live_code :
      (d : D) (r : Run D) (files : Files D)
      → ((d' : D) → is_empty (integrity d') ≡ false)
      → ((finished execute saved row_counts integrity false d r files).1 ≡ 1)
        ⊎ ((finished execute saved row_counts integrity false d r files).1 ≡ 2)
  live_code d (completed d') files rows = inr (code_two d d' (rows d'))
  live_code d (aborted d') files rows = inl refl

  -- SQLite's integrity check always has a row. Where the database and the migration are there, a live
  -- run then exits with 1 or 2, never with 0, also where every statement succeeded and the check
  -- found the database sound.
  main-exit_code :
      (files : Files D) (d : D) (sql : String)
      → files.source ≡ some d
      → files.migration_sql ≡ some sql
      → ((d' : D) → is_empty (integrity d') ≡ false)
      → ((main execute saved row_counts integrity false false files).1 ≡ 1)
        ⊎ ((main execute saved row_counts integrity false false files).1 ≡ 2)
  unfolding main
  main-exit_code files d sql there given rows = rw there rw given (
      live_code d (run_migration execute saved row_counts integrity sql false d)
        (record files { source = some d; snapshot = some d; migration_sql = some sql }) rows)
