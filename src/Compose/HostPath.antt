-- ===== src/Compose/HostPath.antt =====
-- hostPaths of internal/compose/validate.go: which host folders an app may bind-mount. `resolve` is
-- resolvePath (Compose/ResolvePath), which asks the file system for links; `none` is that it could not.
-- An empty reason means that the path is allowed.
pub mod Safe
pub mod Within
use simpledeploy.Prelude.{
  Bool, true, false, not, ◌&&◌, ◌||◌, Option, none, some, List, [], ◌∷◌, ◌++◌, if◌then◌else◌, ◌==◌,
  any,
}
use simpledeploy.Prelude.Text.{Text, text_eq, codes, has_prefix}
use simpledeploy.Paths.{slash, is_abs, clean, join, dir}

pub record HostPaths : Type 0 where
  pub app_dir : Text
  pub app_real : Text
  pub data_dirs : List Text
  pub apps_dirs : List Text
  pub allowed : List Text

abbrev pub system_paths : List Text
system_paths =
    codes "/bin"
    ∷ codes "/boot"
    ∷ codes "/dev"
    ∷ codes "/etc"
    ∷ codes "/home"
    ∷ codes "/lib"
    ∷ codes "/lib32"
    ∷ codes "/lib64"
    ∷ codes "/libx32"
    ∷ codes "/proc"
    ∷ codes "/root"
    ∷ codes "/run"
    ∷ codes "/sbin"
    ∷ codes "/snap"
    ∷ codes "/sys"
    ∷ codes "/usr"
    ∷ codes "/var/backups"
    ∷ codes "/var/lib"
    ∷ codes "/var/log"
    ∷ codes "/var/mail"
    ∷ codes "/var/run"
    ∷ codes "/var/spool"
    ∷ []

abbrev pub read_only_paths : List Text
read_only_paths = codes "/var/log" ∷ []

unfoldable pub within : Text → Text → Bool
within p base =
    if base == codes "/"
    then has_prefix p (codes "/")
    else p == base || has_prefix p (base ++ codes "/")

abbrev pub overlaps : Text → Text → Bool
overlaps a b = within a b || within b a

abbrev pub no_reason : Text
no_reason = []

unfoldable pub protected_reason : HostPaths → Text → Bool → Text
protected_reason h p read_only =
    if any (λ a. not (p == a) && within p a) h.apps_dirs
    then codes "another app's folder"
    else if any (λ d. overlaps p d) h.data_dirs
    then codes "SimpleDeploy's data folder"
    else if any (λ a. within a p) h.apps_dirs
    then codes "it holds every app's folder"
    else if any (λ a. within p a) h.allowed
    then no_reason
    else if read_only && any (λ r. within p r) read_only_paths
    then no_reason
    else if any (λ s. overlaps p s) system_paths
    then codes "protected system folder"
    else no_reason

unfoldable pub in_app : HostPaths → Text → Text → Bool
in_app h lex real = not (h.app_dir == []) && within lex h.app_dir && within real h.app_real

abbrev pub unchecked : Text
unchecked = codes "the path could not be checked"

-- `filepath.Clean` of the path, a relative one taken from the app folder.
unfoldable pub lexical : HostPaths → Text → Text
lexical h p = clean (if is_abs p then p else join h.app_dir p)

abbrev pub or_else_reason : Text → Text → Text
or_else_reason [] other = other
or_else_reason (c ∷ reason) other = c ∷ reason

-- `quote` is the verb %q.
module _ (resolve : Text → Option Text) (quote : Text → Text) where
  abbrev pub link_reason : Text → Text → Text
  link_reason real [] = []
  link_reason real (c ∷ reason) = codes "it links to " ++ quote real ++ codes ", " ++ c ∷ reason

  abbrev pub lexical_reason : HostPaths → Text → Bool → Text
  lexical_reason h lex read_only =
      if h.app_dir == [] || not (within lex h.app_dir)
      then protected_reason h lex read_only
      else no_reason

  abbrev pub real_reason : HostPaths → Text → Text → Bool → Text
  real_reason h lex real read_only =
      if not (real == lex) then link_reason real (protected_reason h real read_only) else no_reason

  abbrev pub resolved_reason : HostPaths → Text → Option Text → Bool → Text
  resolved_reason h lex none read_only = unchecked
  resolved_reason h lex (some real) read_only =
      if in_app h lex real
      then no_reason
      else or_else_reason (lexical_reason h lex read_only) (real_reason h lex real read_only)

  unfoldable pub bind_reason : HostPaths → Text → Bool → Text
  unfolding lexical
  bind_reason h src read_only =
      if not (is_abs src) && h.app_dir == []
      then unchecked
      else resolved_reason h (lexical h src) (resolve (lexical h src)) read_only

module _ (resolve : Text → Option Text) where
  abbrev pub resolved_in_app : HostPaths → Text → Option Text → Bool
  resolved_in_app h lex none = false
  resolved_in_app h lex (some real) = in_app h lex real

  unfoldable pub confined : HostPaths → Text → Bool
  unfolding lexical
  confined h p =
      if h.app_dir == [] then false else resolved_in_app h (lexical h p) (resolve (lexical h p))

  abbrev pub resolved_too : Text → Option Text → List Text
  resolved_too p none = p ∷ []
  resolved_too p (some real) = if real == p then p ∷ [] else p ∷ real ∷ []

  unfoldable pub with_resolved : Text → List Text
  with_resolved p = if p == [] then [] else resolved_too p (resolve p)

  unfoldable pub all_resolved : List Text → List Text
  unfolding with_resolved
  all_resolved [] = []
  all_resolved (a ∷ as') = with_resolved a ++ all_resolved as'

-- The folders of `SetProtectedPaths` and `SetAllowedHostPaths`.
pub record Protected : Type 0 where
  pub data_dir : Text
  pub apps_dir : Text
  pub allowed : List Text

-- `filepath.Abs` is a parameter, since it reads the working directory; `none` is its error.
abbrev pub abs_or_clean : Text → Option Text → Text
abs_or_clean p none = clean p
abs_or_clean p (some a) = a

module _ (abs : Text → Option Text) where
  unfoldable pub clean_abs : Text → Text
  clean_abs p = if p == [] then [] else abs_or_clean p (abs p)

  unfoldable pub set_protected_paths : Text → Text → Protected → Protected
  unfolding clean_abs
  set_protected_paths data_dir apps_dir pr = record pr {
    data_dir = clean_abs data_dir;
    apps_dir = clean_abs apps_dir;
  }

unfoldable pub keep_abs : List Text → List Text
keep_abs [] = []
keep_abs (p ∷ ps) =
    let rest = keep_abs ps in
    if is_abs p && not (clean p == codes "/") then clean p ∷ rest else rest

unfoldable pub set_allowed_host_paths : List Text → Protected → Protected
unfolding keep_abs
set_allowed_host_paths paths pr = record pr { allowed = keep_abs paths }

module _ (resolve : Text → Option Text) (abs : Text → Option Text) where
  abbrev pub app_dir_of : Text → Option Text → Text
  app_dir_of app_dir none = []
  app_dir_of app_dir (some real) = app_dir

  abbrev pub real_or_empty : Option Text → Text
  real_or_empty none = []
  real_or_empty (some t) = t

  abbrev pub with_app : Protected → Text → Option Text → HostPaths
  with_app pr app_dir real = record {
    app_dir = app_dir_of app_dir real;
    app_real = real_or_empty real;
    data_dirs = with_resolved resolve pr.data_dir;
    apps_dirs = with_resolved resolve pr.apps_dir;
    allowed = all_resolved resolve pr.allowed;
  }

  -- The argument is the path of the compose file.
  unfoldable pub new_host_paths : Protected → Text → HostPaths
  new_host_paths pr compose_path =
      if compose_path == []
      then with_app pr [] none
      else (let app_dir = dir (clean_abs abs compose_path) in with_app pr app_dir (resolve app_dir))
