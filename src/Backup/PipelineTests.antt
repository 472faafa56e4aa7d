-- ===== src/Backup/PipelineTests.antt =====
-- internal/backup/pipeline.go with concrete hooks.
use simpledeploy.Prelude.{ℕ, true, false, Option, some, none, [], ◌∷◌, ◌++◌, ◌≡◌, refl, All}
use simpledeploy.Prelude.Text.{Text, codes, text_beq}
use simpledeploy.Backup.Cap.{restore_cap}
use simpledeploy.Backup.Pipeline.{
  Hooks, PipelineResult, pre_hooks, post_hooks, restored, run_pre, run_post_hooks, run_backup,
  run_restore,
}
use simpledeploy.Backup.Pipeline.RoundTrip.{
  IsVerified, EndsClosed, file_after, run_restore-run_backup, run_restore-safe,
}

abbrev stop_start : Hooks
stop_start = record { runner = true; pre = 1; post = 1; pre_ok = true }

-- The checksum of a text is its first byte.
abbrev first_byte : Text → Text
first_byte [] = 0 ∷ []
first_byte (c ∷ s) = c ∷ []

abbrev to_disk : Text → Text → Option (Text × ℕ)
to_disk name bytes = some (name, 3)

abbrev dump_result : PipelineResult
dump_result = record { file_path = codes "db.gz"; size_bytes = 3; checksum = codes "x" }

dump_done :
    (run_backup first_byte stop_start to_disk (some (codes "db.gz", codes "xyz"))).1
    ≡ some dump_result
unfolding run_backup
dump_done = refl

run_restore-run_backup_example :
    run_restore first_byte stop_start true none dump_result.checksum true (
      file_after dump_result.file_path
        (run_backup first_byte stop_start to_disk (some (codes "db.gz", codes "xyz"))).0)
    ≡ (run_pre stop_start ++ (restored (codes "xyz") ∷ run_post_hooks stop_start), true)
unfolding restore_cap
run_restore-run_backup_example =
    run_restore-run_backup first_byte stop_start stop_start to_disk (codes "db.gz") (codes "xyz")
      dump_result none true dump_done refl refl

run_restore-safe_example :
    All
      (IsVerified first_byte (codes "x"))
      (run_restore first_byte stop_start true none (codes "x") false (some (codes "abc"))).0
    × EndsClosed first_byte stop_start
        (run_restore first_byte stop_start true none (codes "x") false (some (codes "abc"))).0
run_restore-safe_example =
    run_restore-safe first_byte stop_start true none (codes "x") false (some (codes "abc"))

-- A file that was changed is not restored, and no hook runs.
changed_refused :
    run_restore first_byte stop_start true none (codes "x") true (some (codes "abc")) ≡ ([], false)
unfolding run_restore text_beq
changed_refused = refl

-- A failed hook before the run is followed by those after it.
failed_hook :
    run_restore first_byte
      (record stop_start { pre_ok = false })
      true
      none
      (codes "x")
      true
      (some (codes "xyz"))
    ≡ (pre_hooks ∷ post_hooks ∷ [], false)
unfolding run_restore text_beq
failed_hook = refl
