-- ===== src/Compose/Validate/Sources.antt =====
-- What a mount of a container binds, written out apart from the check of the layout.
use simpledeploy.Prelude.{
  Bool, true, false, not, ◌&&◌, ◌||◌, ◌≡◌, ◌⊎◌, refl, arith, Option, some, [], ◌∷◌, any, ◌==◌,
}
use simpledeploy.Prelude.Text.{
  Text, text_eq, text_beq_iff, codes, has_prefix, split, to_lower, trim_space,
}
use simpledeploy.Prelude.Dict.{Dict, lookup}
use simpledeploy.Paths.{is_abs, clean, join}
use simpledeploy.Compose.HostPath.{HostPaths}
use simpledeploy.Compose.Container.{ServiceVolume}
use simpledeploy.Compose.Volume.{
  VolumeConfig, volume_host_bind, has_mount_opt, opt_of, driver_opt, is_local_driver,
  is_bind_volume,
}
use simpledeploy.Compose.Layout.{real_or, volume_bind}

-- An option among those of `o`, which are separated by commas.
abbrev pub names_opt : Text → Text → Bool
names_opt o want = any (λ part. trim_space part == want) (split b',' (to_lower o))

-- A named volume of the local driver that binds a folder of the host.
pub record IsHostVolume (w : VolumeConfig) (folder : Text) (ro : Bool) : Type 0 where
  pub local : (w.driver ≡ []) ⊎ (w.driver ≡ codes "local")
  pub device : Text
  pub has_device : lookup (codes "device") w.driver_opts ≡ some device
  pub trimmed : folder ≡ trim_space device
  pub absolute : is_abs folder ≡ true
  pub binds :
      (to_lower (trim_space (opt_of (lookup (codes "type") w.driver_opts))) ≡ codes "none")
      ⊎ ((names_opt (opt_of (lookup (codes "o") w.driver_opts)) (codes "bind") ≡ true)
          ⊎ (names_opt (opt_of (lookup (codes "o") w.driver_opts)) (codes "rbind") ≡ true))
  pub read_only : ro ≡ names_opt (opt_of (lookup (codes "o") w.driver_opts)) (codes "ro")

volume_host_bind-IsHostVolume :
    (w : VolumeConfig) (folder : Text) (ro : Bool)
    → IsHostVolume w folder ro
    → volume_host_bind w ≡ some (folder, ro)
unfolding volume_host_bind driver_opt has_mount_opt
volume_host_bind-IsHostVolume w folder ro v =
    let near : is_local_driver w ≡ true =
      ground (arith, v.local, text_beq_iff w.driver [], text_beq_iff w.driver (codes "local")) in
    let binds : is_bind_volume w ≡ true = ground (
      arith,
      v.binds,
      text_beq_iff (to_lower (trim_space (opt_of (lookup (codes "type") w.driver_opts))))
          (codes "none"),
    ) in
    let there : is_abs (trim_space v.device) ≡ true = rw v.trimmed at v.absolute in
    rw (v.has_device, near, there, binds, v.read_only, v.trimmed) refl

module _ (resolve : Text → Option Text) (quote : Text → Text) (h : HostPaths) where
  -- What a mount of a container binds, before links are followed: a path in it, which may be relative
  -- to the app folder, or the folder of a named volume. The flag says that it is writable.
  pub data IsSource (volumes : Dict Text VolumeConfig) (v : ServiceVolume)
      : Text → Bool → Type 0 where
    of_path :
        {path : Text} {writes : Bool}
        → (v.kind == codes "volume") ≡ false
        → (v.source == []) ≡ false
        → (v.kind == codes "bind" || has_prefix v.source (codes "/")) ≡ true
        → is_abs v.source ≡ true
        → path ≡ clean v.source
        → writes ≡ not v.read_only
        → IsSource volumes v path writes
    of_relative :
        {path : Text} {writes : Bool}
        → (v.kind == codes "volume") ≡ false
        → (v.source == []) ≡ false
        → (v.kind == codes "bind" || has_prefix v.source (codes "/")) ≡ true
        → is_abs v.source ≡ false
        → (h.app_dir == []) ≡ false
        → path ≡ clean (join h.app_dir v.source)
        → writes ≡ not v.read_only
        → IsSource volumes v path writes
    of_volume :
        {path : Text} {writes : Bool} (w : VolumeConfig) (folder : Text) (ro : Bool)
        → (v.kind == codes "volume") ≡ true
        → lookup v.source volumes ≡ some w
        → IsHostVolume w folder ro
        → path ≡ clean folder
        → writes ≡ (not v.read_only && not ro)
        → IsSource volumes v path writes

  pub volume_bind-IsSource :
      (volumes : Dict Text VolumeConfig) (who path : Text) (v : ServiceVolume) (writes : Bool)
      → IsSource volumes v path writes
      → volume_bind resolve quote h volumes who v
        ≡ record { who = who; src = real_or path (resolve path); rw = writes } ∷ []
  volume_bind-IsSource volumes who path v writes (of_path named source mount absolute at writable) =
      let taken : (v.source == []
            || (not (v.kind == codes "bind") && not (has_prefix v.source (codes "/"))))
          ≡ false =
        ground (arith, source, mount) in
      rw (at, writable, named, taken, absolute) refl
  volume_bind-IsSource volumes who path v writes
        (of_relative named source mount relative app at writable) =
      let taken : (v.source == []
            || (not (v.kind == codes "bind") && not (has_prefix v.source (codes "/"))))
          ≡ false =
        ground (arith, source, mount) in
      rw (at, writable, named, taken, relative, app) refl
  volume_bind-IsSource volumes who path v writes
        (of_volume w folder ro named found host at writable) =
      rw (at, writable, named, found, volume_host_bind-IsHostVolume w folder ro host) refl
