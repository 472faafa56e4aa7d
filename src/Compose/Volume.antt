-- ===== src/Compose/Volume.antt =====
-- validateVolume of internal/compose/validate.go: the named volumes of a project.
use simpledeploy.Prelude.{
  ℕ, Bool, true, false, not, ◌&&◌, ◌||◌, Option, none, some, List, [], ◌∷◌, ◌++◌, if◌then◌else◌,
  ◌==◌, any,
}
use simpledeploy.Prelude.Text.{
  Text, text_eq, codes, has_prefix, to_lower, trim_space, trim_prefix, contains_byte, split,
}
use simpledeploy.Prelude.Dict.{Dict, lookup}
use simpledeploy.Paths.{is_abs}
use simpledeploy.Compose.HostPath.{HostPaths, bind_reason}
use simpledeploy.Compose.Container.{when, prefixed}

pub record VolumeConfig : Type 0 where
  pub name : Text
  pub driver : Text
  pub driver_opts : Dict Text Text

unfoldable pub has_mount_opt : Text → Text → Bool
has_mount_opt o want = any (λ part. trim_space part == want) (split b',' (to_lower o))

abbrev pub opt_of : Option Text → Text
opt_of none = []
opt_of (some v) = v

unfoldable pub driver_opt : Text → VolumeConfig → Text
driver_opt key v = opt_of (lookup key v.driver_opts)

abbrev pub is_local_driver : VolumeConfig → Bool
is_local_driver v = v.driver == [] || v.driver == codes "local"

abbrev pub is_bind_volume : VolumeConfig → Bool
is_bind_volume v =
    to_lower (trim_space (driver_opt (codes "type") v)) == codes "none"
    || has_mount_opt (driver_opt (codes "o") v) (codes "bind")
    || has_mount_opt (driver_opt (codes "o") v) (codes "rbind")

abbrev pub network_volume_types : List Text
network_volume_types = codes "nfs" ∷ codes "nfs4" ∷ codes "cifs" ∷ codes "smb3" ∷ codes "tmpfs" ∷ []

-- The device and whether it is read-only.
unfoldable pub volume_host_bind : VolumeConfig → Option (Text × Bool)
unfolding driver_opt has_mount_opt
volume_host_bind v =
    let device = trim_space (driver_opt (codes "device") v) in
    if is_local_driver v && is_abs device && is_bind_volume v
    then some (device, has_mount_opt (driver_opt (codes "o") v) (codes "ro"))
    else none

module _ (resolve : Text → Option Text) (quote : Text → Text) (decimal : ℕ → Text)
    (h : HostPaths) where
  -- `app` is the name of the app, and `project` that of its compose project.
  abbrev pub foreign_name : Text → Text → Text → VolumeConfig → Bool
  foreign_name app project key v =
      has_prefix v.name (codes "simpledeploy-")
      && not (v.name == project ++ codes "_" ++ key)
      && not (v.name == codes "simpledeploy-" ++ app ++ codes "_" ++ key)

  unfoldable pub name_reason : Text → Text → VolumeConfig → Text
  name_reason app key v =
      let own = codes "simpledeploy-" ++ trim_prefix app (codes "simpledeploy-") in
      let default = own ++ codes "_" ++ key in
      if contains_byte b'_' (trim_prefix v.name (codes "simpledeploy-"))
        && not (has_prefix v.name (own ++ codes "_"))
      then codes "uses storage "
        ++ quote v.name
        ++ codes " from another app; only the default name "
        ++ quote default
        ++ codes " is allowed"
      else codes "name "
        ++ quote v.name
        ++ codes " is not allowed; the only simpledeploy- name allowed is the default "
        ++ quote default

  unfoldable pub folder_reasons : Text → List Text
  folder_reasons p =
      let reason = bind_reason resolve quote h p false in
      when (not (reason == []))
        (codes "host folder " ++ quote p ++ codes " is not allowed (" ++ reason ++ codes ")")

  abbrev pub driver_reasons : Text → List Text
  driver_reasons p =
      if has_prefix p (codes "/") && not (has_prefix p (codes "//")) then folder_reasons p else []

  unfoldable pub local_reasons : VolumeConfig → List Text
  unfolding folder_reasons
  local_reasons v =
      let device = trim_space (driver_opt (codes "device") v) in
      let kind = to_lower (trim_space (driver_opt (codes "type") v)) in
      if is_bind_volume v
      then (if device == []
          then []
          else if not (is_abs device)
          then (codes "device " ++ quote device ++ codes " must be a full path") ∷ []
          else folder_reasons device)
      else if kind == [] && device == []
      then []
      else when (not (any (λ t. t == kind) network_volume_types))
          (codes "driver_opts type " ++ quote (driver_opt (codes "type") v) ++ codes " not allowed")

  unfoldable pub option_reasons : VolumeConfig → List Text
  unfolding local_reasons folder_reasons
  option_reasons v =
      if is_local_driver v
      then local_reasons v
      else driver_reasons (trim_space (driver_opt (codes "device") v))
        ++ driver_reasons (trim_space (driver_opt (codes "mountpoint") v))

  abbrev pub no_opts : Dict Text Text → Bool
  no_opts [] = true
  no_opts (o ∷ os) = false

  unfoldable pub validate_volume : Text → Text → Text → VolumeConfig → List Text
  unfolding name_reason option_reasons prefixed
  validate_volume app project key v = prefixed (codes "volume " ++ quote key ++ codes ": ") (
      when (foreign_name app project key v) (name_reason app key v)
      ++ (if no_opts v.driver_opts then [] else option_reasons v))
