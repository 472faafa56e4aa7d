-- ===== src/Compose/ResolvePath.antt =====
-- resolvePath of internal/compose/validate.go. The file system is a parameter.
pub mod Elements
pub mod Ends
use simpledeploy.Prelude.{
  ℕ, zero, suc, ◌+◌, Bool, true, false, Option, none, some, List, [], ◌∷◌, if◌then◌else◌, ◌==◌,
  length, ◌>>=◌,
}
use simpledeploy.Prelude.Text.{Text, text_eq}
use simpledeploy.Paths.{base, dir, join}

-- What `os.Lstat` says of a path: that it exists, that it does not, or another error.
pub data Lstat : Type 0 where
  exists missing failed : Lstat

-- `filepath.EvalSymlinks`, where `none` is an error, and `os.Lstat`.
pub record FileSystem : Type 0 where
  pub eval_symlinks : Text → Option Text
  pub lstat : Text → Lstat

module _ (fs : FileSystem) where
  -- The rest of a round, where `at_root` is that the parent is the path itself and `more` is what the
  -- next round answers. The answer within is `none` where `ok` is false.
  abbrev pub at_missing : Text → Bool → Option (Option Text) → Option (Option Text)
  at_missing p true more = some (some p)
  at_missing p false more = more

  abbrev pub at_error : Text → Lstat → Bool → Option (Option Text) → Option (Option Text)
  at_error p exists at_root more = some none
  at_error p failed at_root more = some none
  at_error p missing at_root more = at_missing p at_root more

  abbrev pub round :
      Text → Text → Option Text → Lstat → Bool → Option (Option Text) → Option (Option Text)
  round p rest (some real) found at_root more = some (some (join real rest))
  round p rest none found at_root more = at_error p found at_root more

  -- `none` is that the fuel ran out.
  unfoldable pub resolve_path_loop : ℕ → Text → Text → Text → Option (Option Text)
  resolve_path_loop zero p cur rest = none
  resolve_path_loop (suc fuel) p cur rest =
      let more = resolve_path_loop fuel p (dir cur) (join (base cur) rest) in
      round p rest (fs.eval_symlinks cur) (fs.lstat cur) (dir cur == cur) more

  unfoldable pub resolve_path : Text → Option Text
  unfolding resolve_path_loop
  resolve_path p = resolve_path_loop (length p + 1) p p [] >>= (λ r. r)
