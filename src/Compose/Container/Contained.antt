-- ===== src/Compose/Container/Contained.antt =====
-- What a container, and a build, without violations cannot do.
use simpledeploy.Prelude.{
  Bool, true, false, not, ◌&&◌, ◌≡◌, ◌⊎◌, inl, inr, refl, arith, Option, List, [], ◌∷◌, ◌++◌, ◌==◌,
  All, Bool-cases, nat_eq,
}
use simpledeploy.Prelude.Text.{Text, text_eq, text_beq_iff, codes, has_prefix, to_lower, trim_space}
use simpledeploy.Compose.HostPath.{HostPaths, confined}
use simpledeploy.Compose.Container.{
  ServiceVolume, ContainerSpec, normalize_cap, unsafe_security_opt, to_upper, equal_fold, when,
  either, volume_reason, cap_violations, opt_violations, volume_violations, file_violations,
  mode_violations, device_violations, container_violations,
}
use simpledeploy.Compose.Container.Harmless.{
  host_caps, unconfined_opts, with_cap, IsHarmlessCap, IsConfinedOpt, normalized-bad, unsafe-bad,
  caps-bad, opts-bad,
}

pub nil-left : (xs ys : List Text) → xs ++ ys ≡ [] → xs ≡ []
nil-left [] ys h = refl
nil-left (x ∷ xs) ys h = cc

pub nil-right : (xs ys : List Text) → xs ++ ys ≡ [] → ys ≡ []
nil-right [] ys h = h
nil-right (x ∷ xs) ys h = cc

pub when-nil : (b : Bool) (m : Text) → when b m ≡ [] → b ≡ false
when-nil true m h = cc
when-nil false m h = refl

-- A check in front of others.
pub check-nil :
    (b : Bool) (m : Text) (rest : List Text) → when b m ++ rest ≡ [] → (b ≡ false) × (rest ≡ [])
check-nil true m rest h = cc
check-nil false m rest h = (refl, h)

mode-nil :
    (b1 b2 b3 b4 b5 b6 b7 b8 b9 b10 b11 : Bool) (m1 m2 m3 m4 m5 m6 m7 m8 m9 m10 m11 : Text)
    → when b1 m1
        ++ when b2 m2
        ++ either b3 m3 b4 m4
        ++ either b5 m5 b6 m6
        ++ either b7 m7 b8 m8
        ++ when b9 m9
        ++ when b10 m10
        ++ when b11 m11
      ≡ []
    → (b1 ≡ false)
      × (b2 ≡ false)
      × (b3 ≡ false)
      × (b4 ≡ false)
      × (b5 ≡ false)
      × (b6 ≡ false)
      × (b7 ≡ false)
      × (b8 ≡ false)
      × (b9 ≡ false)
      × (b10 ≡ false)
      × (b11 ≡ false)
mode-nil b1 b2 b3 b4 b5 b6 b7 b8 b9 b10 b11 m1 m2 m3 m4 m5 m6 m7 m8 m9 m10 m11 h = ground arith

-- No mode of the container opens the host, and it joins no named container's network or memory and
-- nobody's processes.
abbrev pub IsIsolated : ContainerSpec → Type 0
IsIsolated c =
    (c.privileged ≡ false)
    × (c.use_api_socket ≡ false)
    × ((to_lower (trim_space c.network_mode) == codes "host") ≡ false)
    × (has_prefix (to_lower (trim_space c.network_mode)) (codes "container:") ≡ false)
    × (c.pid ≡ [])
    × ((to_lower (trim_space c.ipc) == codes "host") ≡ false)
    × (has_prefix (to_lower (trim_space c.ipc)) (codes "container:") ≡ false)
    × (equal_fold (trim_space c.uts) (codes "host") ≡ false)
    × (equal_fold c.user_ns_mode (codes "host") ≡ false)
    × (equal_fold c.cgroup (codes "host") ≡ false)

module _ (resolve : Text → Option Text) (quote : Text → Text) (h : HostPaths) where
  -- Every capability, option, volume and file of the container is one that is allowed.
  abbrev pub IsLimited : ContainerSpec → Type 0
  IsLimited c =
      All IsHarmlessCap c.cap_add
      × All IsConfinedOpt c.security_opt
      × ((c.devices ≡ 0) × (c.device_cgroup_rules ≡ 0) × (c.volumes_from ≡ 0))
      × All (λ v. volume_reason resolve quote h v ≡ []) c.volumes
      × All (λ f. (f ≡ []) ⊎ (confined resolve h f ≡ true)) c.env_files
      × All (λ f. (f ≡ []) ⊎ (confined resolve h f ≡ true)) c.label_files

  mode_violations-IsIsolated :
      (c : ContainerSpec) → mode_violations resolve quote h c ≡ [] → IsIsolated c
  unfolding mode_violations
  mode_violations-IsIsolated c e =
      let network = to_lower (trim_space c.network_mode) in
      let ipc = to_lower (trim_space c.ipc) in
      let (f1, f2, f3, f4, f5, f6, f7, f8, f9, f10, f11) =
        mode-nil c.privileged c.use_api_socket (network == codes "host")
          (has_prefix network (codes "container:")) (c.pid == codes "host") (not (c.pid == []))
          (ipc == codes "host") (has_prefix ipc (codes "container:"))
          (equal_fold (trim_space c.uts) (codes "host")) (equal_fold c.user_ns_mode (codes "host"))
          (equal_fold c.cgroup (codes "host")) _ _ _ _ _ _ _ _ _ _ _ e in
      (f1, f2, f3, f4, (text_beq_iff c.pid []).0 (ground arith), f7, f8, f9, f10, f11)

  caps-nil : (cs : List Text) → cap_violations resolve quote h cs ≡ [] → All IsHarmlessCap cs
  unfolding cap_violations normalize_cap
  caps-nil [] e = tt
  caps-nil (c ∷ cs) e =
      let (ok, rest) = check-nil _ _ (cap_violations resolve quote h cs) e in
      (
        normalized-bad (host_caps ++ with_cap host_caps) (to_upper (trim_space c)) ok caps-bad,
        caps-nil cs rest,
      )

  opts-nil : (os : List Text) → opt_violations resolve quote h os ≡ [] → All IsConfinedOpt os
  unfolding opt_violations unsafe_security_opt
  opts-nil [] e = tt
  opts-nil (o ∷ os) e =
      let (ok, rest) = check-nil (unsafe_security_opt o) _ (opt_violations resolve quote h os) e in
      (unsafe-bad unconfined_opts o ok opts-bad, opts-nil os rest)

  volumes-nil :
      (vs : List ServiceVolume)
      → volume_violations resolve quote h vs ≡ []
      → All (λ v. volume_reason resolve quote h v ≡ []) vs
  unfolding volume_violations
  volumes-nil [] e = tt
  volumes-nil (v ∷ vs) e =
      let (ok, rest) =
        check-nil (not (volume_reason resolve quote h v == [])) _
          (volume_violations resolve quote h vs) e in
      ((text_beq_iff (volume_reason resolve quote h v) []).0 (ground arith), volumes-nil vs rest)

  pub files-nil :
      (what : Text) (fs : List Text)
      → file_violations resolve quote h what fs ≡ []
      → All (λ f. (f ≡ []) ⊎ (confined resolve h f ≡ true)) fs
  unfolding file_violations
  files-nil what [] e = tt
  files-nil what (f ∷ fs) e =
      let (ok, rest) =
        check-nil (not (f == []) && not (confined resolve h f)) _
          (file_violations resolve quote h what fs) e in
      (file_ok f ok, files-nil what fs rest)
    where
      file_ok :
          (g : Text)
          → (not (g == []) && not (confined resolve h g)) ≡ false
          → (g ≡ []) ⊎ (confined resolve h g ≡ true)
      file_ok g o = elim (Bool-cases (g == [])) [
        | inl empty ↦ inl ((text_beq_iff g []).0 empty)
        | inr some_file ↦ inr (ground arith)
      ]

  devices-nil :
      (c : ContainerSpec)
      → device_violations resolve quote h c ≡ []
      → (c.devices ≡ 0) × (c.device_cgroup_rules ≡ 0) × (c.volumes_from ≡ 0)
  unfolding device_violations
  devices-nil c e =
      let first = when (not (c.devices == 0)) (codes "'devices' not allowed") in
      let second =
        when (not (c.device_cgroup_rules == 0)) (codes "'device_cgroup_rules' not allowed") in
      let third = when (not (c.volumes_from == 0)) (codes "'volumes_from' not allowed") in
      let e2 = nil-left (first ++ second) third e in
      let a = when-nil (not (c.devices == 0)) _ (nil-left first second e2) in
      let b = when-nil (not (c.device_cgroup_rules == 0)) _ (nil-right first second e2) in
      let d = when-nil (not (c.volumes_from == 0)) _ (nil-right (first ++ second) third e) in
      (ground arith, ground arith, ground arith)

  -- What a container without violations cannot do.
  pub container_violations-nil :
      (c : ContainerSpec) → container_violations resolve quote h c ≡ [] → IsIsolated c × IsLimited c
  unfolding container_violations
  container_violations-nil c e =
      let caps = cap_violations resolve quote h c.cap_add in
      let opts = opt_violations resolve quote h c.security_opt in
      let devs = device_violations resolve quote h c in
      let vols = volume_violations resolve quote h c.volumes in
      let envs = file_violations resolve quote h (codes "env_file ") c.env_files in
      let labels = file_violations resolve quote h (codes "label_file ") c.label_files in
      let modes = mode_violations resolve quote h c in
      let e1 = nil-left (modes ++ caps ++ opts ++ devs ++ vols ++ envs) labels e in
      let e2 = nil-left (modes ++ caps ++ opts ++ devs ++ vols) envs e1 in
      let e3 = nil-left (modes ++ caps ++ opts ++ devs) vols e2 in
      let e4 = nil-left (modes ++ caps ++ opts) devs e3 in
      let e5 = nil-left (modes ++ caps) opts e4 in
      (
        mode_violations-IsIsolated c (nil-left modes caps e5),
        (
          caps-nil c.cap_add (nil-right modes caps e5),
          opts-nil c.security_opt (nil-right (modes ++ caps) opts e4),
          devices-nil c (nil-right (modes ++ caps ++ opts) devs e3),
          volumes-nil c.volumes (nil-right (modes ++ caps ++ opts ++ devs) vols e2),
          files-nil (codes "env_file ") c.env_files
              (nil-right (modes ++ caps ++ opts ++ devs ++ vols) envs e1),
          files-nil (codes "label_file ") c.label_files
              (nil-right (modes ++ caps ++ opts ++ devs ++ vols ++ envs) labels e),
        ),
      )
