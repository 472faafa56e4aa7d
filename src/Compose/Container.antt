-- ===== src/Compose/Container.antt =====
-- containerViolations of internal/compose/validate.go. The records hold the
-- fields of package compose-go that are read; `%q` and resolvePath are parameters.
pub mod Harmless
pub mod Contained
use simpledeploy.Prelude.{
  ◌-◌, nat_eq, ℕ, Bool, true, false, not, ◌&&◌, ◌||◌, Option, none, some, List, [], ◌∷◌, ◌++◌, leb,
  if◌then◌else◌, ◌==◌, any, drop,
}
use simpledeploy.Prelude.Text.{
  contains, Text, text_eq, codes, has_prefix, to_lower, trim_space, trim_prefix, contains_byte,
}
use simpledeploy.Paths.{is_abs, join}
use simpledeploy.Compose.HostPath.{HostPaths, bind_reason, confined}

pub record ServiceVolume : Type 0 where
  pub kind : Text
  pub source : Text
  pub read_only : Bool

-- `env_files` and `label_files` hold the paths; the counts are those of `devices`,
-- `device_cgroup_rules` and `volumes_from`.
pub record ContainerSpec : Type 0 where
  pub privileged : Bool
  pub use_api_socket : Bool
  pub network_mode : Text
  pub pid : Text
  pub ipc : Text
  pub uts : Text
  pub user_ns_mode : Text
  pub cgroup : Text
  pub cap_add : List Text
  pub security_opt : List Text
  pub devices : ℕ
  pub device_cgroup_rules : ℕ
  pub volumes_from : ℕ
  pub volumes : List ServiceVolume
  pub env_files : List Text
  pub label_files : List Text

abbrev pub dangerous_caps : List Text
dangerous_caps =
    codes "ALL"
    ∷ codes "SYS_ADMIN"
    ∷ codes "SYS_PTRACE"
    ∷ codes "SYS_MODULE"
    ∷ codes "SYS_RAWIO"
    ∷ codes "SYS_BOOT"
    ∷ codes "SYS_TIME"
    ∷ codes "NET_ADMIN"
    ∷ codes "NET_RAW"
    ∷ codes "DAC_READ_SEARCH"
    ∷ codes "DAC_OVERRIDE"
    ∷ codes "BPF"
    ∷ codes "PERFMON"
    ∷ codes "MKNOD"
    ∷ []

-- `strings.ToUpper` on ASCII.
abbrev pub upper_byte : ℕ → ℕ
upper_byte c = if leb b'a' c && leb c b'z' then c - 32 else c

unfoldable pub to_upper : Text → Text
to_upper [] = []
to_upper (c ∷ s) = upper_byte c ∷ to_upper s

unfoldable pub normalize_cap : Text → Text
unfolding to_upper
normalize_cap c = trim_prefix (to_upper (trim_space c)) (codes "CAP_")

unfoldable pub remove_spaces : Text → Text
remove_spaces [] = []
remove_spaces (c ∷ s) = let rest = remove_spaces s in if c == b' ' then rest else c ∷ rest

-- The text before and after the first "=" or ":".
unfoldable pub cut_option : Text → Text × Text
cut_option [] = ([], [])
cut_option (c ∷ s) =
    let (key, val) = cut_option s in if c == b'=' || c == b':' then ([], s) else (c ∷ key, val)

-- An option in lower case and without spaces.
unfoldable pub unsafe_spelt : Text → Bool
unfolding cut_option
unsafe_spelt s =
    let (key, val) = cut_option s in
    if key == codes "seccomp"
    then not (val == codes "builtin")
    else if key == codes "apparmor" || key == codes "systempaths"
    then val == codes "unconfined"
    else if key == codes "label"
    then val == codes "disable" || has_prefix val (codes "type:")
    else if key == codes "no-new-privileges"
    then val == codes "false"
    else false

unfoldable pub unsafe_security_opt : Text → Bool
unfolding remove_spaces unsafe_spelt
unsafe_security_opt opt = unsafe_spelt (to_lower (remove_spaces opt))

-- `strings.EqualFold` on ASCII.
abbrev pub equal_fold : Text → Text → Bool
equal_fold a b = to_lower a == to_lower b

abbrev pub when : Bool → Text → List Text
when true message = message ∷ []
when false message = []

abbrev pub either : Bool → Text → Bool → Text → List Text
either true message other message' = message ∷ []
either false message other message' = when other message'

unfoldable pub prefixed : Text → List Text → List Text
prefixed what [] = []
prefixed what (r ∷ rs) = (what ++ r) ∷ prefixed what rs

-- A volume whose source is taken for a host path.
abbrev pub is_host_volume : ServiceVolume → Bool
is_host_volume v =
    not (v.source == []) && (v.kind == codes "bind" || has_prefix v.source (codes "/"))

abbrev pub not_allowed : Text
not_allowed = codes " not allowed"

abbrev pub outside_app : Text
outside_app = codes " must be inside the app folder"

module _ (resolve : Text → Option Text) (quote : Text → Text) (h : HostPaths) where
  unfoldable pub cap_violations : List Text → List Text
  cap_violations [] = []
  cap_violations (c ∷ cs) =
      when (any (λ bad. normalize_cap c == bad) dangerous_caps)
        (codes "dangerous capability " ++ quote c ++ not_allowed)
      ++ cap_violations cs

  unfoldable pub opt_violations : List Text → List Text
  opt_violations [] = []
  opt_violations (o ∷ os) =
      when (unsafe_security_opt o) (codes "security_opt " ++ quote o ++ not_allowed)
      ++ opt_violations os

  unfoldable pub volume_reason : ServiceVolume → Text
  volume_reason v =
      if is_host_volume v then bind_reason resolve quote h v.source v.read_only else []

  unfoldable pub volume_violations : List ServiceVolume → List Text
  unfolding volume_reason
  volume_violations [] = []
  volume_violations (v ∷ vs) =
      when (not (volume_reason v == [])) (
        codes "mounting "
        ++ quote v.source
        ++ codes " is not allowed ("
        ++ volume_reason v
        ++ codes ")")
      ++ volume_violations vs

  unfoldable pub file_violations : Text → List Text → List Text
  file_violations what [] = []
  file_violations what (f ∷ fs) =
      when (not (f == []) && not (confined resolve h f)) (what ++ quote f ++ outside_app)
      ++ file_violations what fs

  unfoldable pub mode_violations : ContainerSpec → List Text
  mode_violations c =
      let network = to_lower (trim_space c.network_mode) in
      let ipc = to_lower (trim_space c.ipc) in
      when c.privileged (codes "privileged mode not allowed")
      ++ when c.use_api_socket (codes "use_api_socket not allowed")
      ++ either (network == codes "host") (codes "network_mode 'host' not allowed")
          (has_prefix network (codes "container:"))
          (codes "network_mode "
            ++ quote c.network_mode
            ++ codes " not allowed (it joins another container's network)")
      ++ either (c.pid == codes "host") (codes "pid mode 'host' not allowed") (not (c.pid == []))
          (codes "pid " ++ quote c.pid ++ not_allowed)
      ++ either (ipc == codes "host") (codes "ipc mode 'host' not allowed")
          (has_prefix ipc (codes "container:"))
          (codes "ipc "
            ++ quote c.ipc
            ++ codes " not allowed (it shares another container's memory)")
      ++ when (equal_fold (trim_space c.uts) (codes "host")) (codes "uts 'host' not allowed")
      ++ when (equal_fold c.user_ns_mode (codes "host")) (codes "userns_mode 'host' not allowed")
      ++ when (equal_fold c.cgroup (codes "host")) (codes "cgroup 'host' not allowed")

  unfoldable pub device_violations : ContainerSpec → List Text
  device_violations c =
      when (not (c.devices == 0)) (codes "'devices' not allowed")
      ++ when (not (c.device_cgroup_rules == 0)) (codes "'device_cgroup_rules' not allowed")
      ++ when (not (c.volumes_from == 0)) (codes "'volumes_from' not allowed")

  unfoldable pub container_violations : ContainerSpec → List Text
  unfolding mode_violations cap_violations opt_violations device_violations volume_violations
      file_violations
  container_violations c =
      mode_violations c
      ++ cap_violations c.cap_add
      ++ opt_violations c.security_opt
      ++ device_violations c
      ++ volume_violations c.volumes
      ++ file_violations (codes "env_file ") c.env_files
      ++ file_violations (codes "label_file ") c.label_files
