-- ===== src/Backup/Pipeline.antt =====
-- internal/backup/pipeline.go: a backup and a restore, as the list of what they do to the world.
pub mod RoundTrip
use simpledeploy.Prelude.{
  ℕ, Bool, true, false, not, ◌&&◌, Option, none, some, List, [], ◌∷◌, ◌++◌, ltb, leb, if◌then◌else◌,
  length, ◌==◌,
}
use simpledeploy.Prelude.Text.{Text, text_eq}
use simpledeploy.Backup.Cap.{restore_cap}

-- The hooks of a run: whether there is a runner, how many there are, and whether all of those before
-- the run succeed. Failures of those after it are warnings.
pub record Hooks : Type 0 where
  pub runner : Bool
  pub pre : ℕ
  pub post : ℕ
  pub pre_ok : Bool

pub record PipelineResult : Type 0 where
  pub file_path : Text
  pub size_bytes : ℕ
  pub checksum : Text

pub data Effect : Type 0 where
  pre_hooks : Effect
  post_hooks : Effect
  dumped : Text → Effect
  uploaded : Text → Text → Effect
  restored : Text → Effect

abbrev pub runs_pre : Hooks → Bool
runs_pre h = h.runner && ltb 0 h.pre

abbrev pub run_post_hooks : Hooks → List Effect
run_post_hooks h = if h.runner && ltb 0 h.post then post_hooks ∷ [] else []

abbrev pub run_pre : Hooks → List Effect
run_pre h = if runs_pre h then pre_hooks ∷ [] else []

abbrev pub pre_fails : Hooks → Bool
pre_fails h = runs_pre h && not h.pre_ok

-- `sha` is the SHA-256 in hexadecimal. The dump of the strategy is a file name and its bytes, and
-- `upload` is where the target puts them, with the size that it counts; none is an error.
module _ (sha : Text → Text) where
  abbrev pub upload_dump : Hooks → Text → Option (Text × ℕ) → List Effect × Option PipelineResult
  upload_dump h bytes none = (dumped bytes ∷ run_post_hooks h, none)
  upload_dump h bytes (some (path, size)) = (
    dumped bytes ∷ uploaded path bytes ∷ run_post_hooks h,
    some (record { file_path = path; size_bytes = size; checksum = sha bytes }),
  )

  abbrev pub dump_all :
      Hooks
      → (Text → Text → Option (Text × ℕ))
      → Option (Text × Text)
      → List Effect × Option PipelineResult
  dump_all h upload none = (run_post_hooks h, none)
  dump_all h upload (some (name, bytes)) = upload_dump h bytes (upload name bytes)

  abbrev pub after_pre {ℓ} : {A : Type ℓ} → Hooks → List Effect × A → List Effect × A
  after_pre h (effects, result) = (run_pre h ++ effects, result)

  unfoldable pub run_backup :
      Hooks
      → (Text → Text → Option (Text × ℕ))
      → Option (Text × Text)
      → List Effect × Option PipelineResult
  run_backup h upload dump =
      after_pre h (if pre_fails h then (run_post_hooks h, none) else dump_all h upload dump)

  -- The cap of a restore, none where there is none.
  abbrev pub within_cap : Option ℕ → Text → Bool
  within_cap none bytes = true
  within_cap (some limit) bytes = leb (length bytes) limit

  -- What is handed to the strategy. With a checksum the download is staged in a file first, which may
  -- fail; without one it is read as it comes.
  abbrev pub verified : Bool → Option ℕ → Text → Text → Option Text
  verified staged max expected bytes =
      if expected == []
      then some bytes
      else if staged && within_cap (restore_cap max) bytes && sha bytes == expected
      then some bytes
      else none

  abbrev pub restore_bytes : Hooks → Bool → Option Text → List Effect × Bool
  restore_bytes h restore_ok none = ([], false)
  restore_bytes h restore_ok (some bytes) = after_pre h (
      if pre_fails h
      then (run_post_hooks h, false)
      else (restored bytes ∷ run_post_hooks h, restore_ok))

  abbrev pub run_download : Hooks → Bool → Option ℕ → Text → Bool → Option Text → List Effect × Bool
  run_download h staged max expected restore_ok none = ([], false)
  run_download h staged max expected restore_ok (some bytes) =
      restore_bytes h restore_ok (verified staged max expected bytes)

  -- The effects, and whether there is no error.
  unfoldable pub run_restore :
      Hooks → Bool → Option ℕ → Text → Bool → Option Text → List Effect × Bool
  unfolding restore_cap
  run_restore h staged max expected restore_ok download =
      run_download h staged max expected restore_ok download
