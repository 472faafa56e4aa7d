-- ===== src/Compose/Validate/Binds.antt =====
-- The folders of the host that the containers of a project are given, and how they lie.
use simpledeploy.Prelude.{
  inl, inr, Bool-cases, ℕ, ◌+◌, zero, suc, Bool, true, false, ◌≡◌, ◌⊎◌, arith, Option, some, List,
  [], ◌∷◌, ◌++◌, All, get_elem?, ◌==◌,
}
use simpledeploy.Prelude.Text.{Text, text_eq, text_lt, text_beq_iff, codes}
use simpledeploy.Prelude.Dict.{Dict, lookup}
use simpledeploy.Prelude.Sort.{All-sort_stable}
use simpledeploy.Compose.HostPath.{HostPaths, within}
use simpledeploy.Compose.Container.{ServiceVolume, ContainerSpec}
use simpledeploy.Compose.Volume.{VolumeConfig}
use simpledeploy.Compose.Security.{ServiceConfig, JobConfig, FileRef, Project, keys, sorted_keys}
use simpledeploy.Compose.Layout.{Mounts, Bind, real_or, volume_bind, container_binds, all_binds}
use simpledeploy.Compose.Validate.{
  all_services, hook_mounts, mounts_at, service_mounts, job_mounts_at, job_mounts, container_mounts,
  validate_project,
}
use simpledeploy.Compose.Validate.Loops.{All-keys}
use simpledeploy.Compose.Validate.Sound.{
  IsContainer, of_service, of_hook, of_job, all_services-IsService, validate_project-all_binds,
}
use simpledeploy.Compose.Validate.Sources.{IsSource, volume_bind-IsSource}

module _ (resolve : Text → Option Text) (quote : Text → Text) (decimal : ℕ → Text)
    (h : HostPaths) where
  -- What holds of every bind of the list holds of the bind of each mount.
  module _ (P : Bind → Type 0) (volumes : Dict Text VolumeConfig) where
    split-All :
        {A : Type 0} (Q : A → Type 0) (xs ys : List A) → All Q (xs ++ ys) → All Q xs × All Q ys
    split-All Q [] ys ok = (tt, ok)
    split-All Q (x ∷ xs) ys (here, ok) =
        let (left, right) = split-All Q xs ys ok in ((here, left), right)

    -- It holds of the binds of one container.
    abbrev Covers : Mounts → Type 0
    Covers m = All P (container_binds resolve quote h volumes m.who m.volumes)

    all_binds-Covers :
        (cs : List Mounts) → All P (all_binds resolve quote h volumes cs) → All Covers cs
    unfolding all_binds
    all_binds-Covers [] ok = tt
    all_binds-Covers (c ∷ cs) ok =
        let (here, rest) =
          split-All P (container_binds resolve quote h volumes c.who c.volumes)
            (all_binds resolve quote h volumes cs) ok in
        (here, all_binds-Covers cs rest)

    Covers-mount :
        (who path : Text) (vs : List ServiceVolume) (i : ℕ) (v : ServiceVolume) (writes : Bool)
        → All P (container_binds resolve quote h volumes who vs)
        → get_elem? vs i ≡ some v
        → IsSource resolve quote h volumes v path writes
        → P (record { who = who; src = real_or path (resolve path); rw = writes })
    unfolding container_binds
    Covers-mount who path [] i v writes ok at_i is_source = cc
    Covers-mount who path (w ∷ vs) zero v writes ok at_i is_source =
        let same : w ≡ v = cc in
        let front =
          (split-All P (volume_bind resolve quote h volumes who w)
            (container_binds resolve quote h volumes who vs) ok).0 in
        let here : All P (volume_bind resolve quote h volumes who v) = rw same at front in
        (rw (volume_bind-IsSource resolve quote h volumes who path v writes is_source) at here).0
    Covers-mount who path (w ∷ vs) (suc i) v writes ok at_i is_source =
        Covers-mount who path vs i v writes
          (split-All P (volume_bind resolve quote h volumes who w)
            (container_binds resolve quote h volumes who vs) ok).1
          at_i is_source

    hook_mounts-Covers :
        (name : Text) (n : ℕ) (cs : List ContainerSpec) (i : ℕ) (c : ContainerSpec)
        → All Covers (hook_mounts resolve quote decimal name n cs)
        → get_elem? cs i ≡ some c
        → (who : Text) × Covers (record { who = who; volumes = c.volumes })
    unfolding hook_mounts
    hook_mounts-Covers name n [] i c ok at_i = cc
    hook_mounts-Covers name n (d ∷ cs) zero c ok at_i =
        let same : d ≡ c = cc in
        let here : Covers (record {
          who = codes "service " ++ quote name ++ codes " pre_start hook " ++ decimal (n + 1);
          volumes = d.volumes;
        }) =
          ok.0 in
        (
          codes "service " ++ quote name ++ codes " pre_start hook " ++ decimal (n + 1),
          rw same at here,
        )
    hook_mounts-Covers name n (d ∷ cs) (suc i) c ok at_i =
        hook_mounts-Covers name (n + 1) cs i c ok.1 at_i

    service_mounts-Covers :
        (m : Dict Text ServiceConfig) (ks : List Text)
        → All Covers (service_mounts resolve quote decimal m ks)
        → All (λ k. All Covers (mounts_at resolve quote decimal k (lookup k m))) ks
    unfolding service_mounts
    service_mounts-Covers m [] ok = tt
    service_mounts-Covers m (k ∷ ks) ok =
        let (here, rest) =
          split-All Covers (mounts_at resolve quote decimal k (lookup k m))
            (service_mounts resolve quote decimal m ks) ok in
        (here, service_mounts-Covers m ks rest)

    job_mounts-Covers :
        (m : Dict Text JobConfig) (ks : List Text)
        → All Covers (job_mounts resolve quote decimal m ks)
        → All (λ k. All Covers (job_mounts_at resolve quote decimal k (lookup k m))) ks
    unfolding job_mounts
    job_mounts-Covers m [] ok = tt
    job_mounts-Covers m (k ∷ ks) ok =
        let (here, rest) =
          split-All Covers (job_mounts_at resolve quote decimal k (lookup k m))
            (job_mounts resolve quote decimal m ks) ok in
        (here, job_mounts-Covers m ks rest)

    at_service :
        (m : Dict Text ServiceConfig) (name : Text) (svc : ServiceConfig)
        → All Covers (service_mounts resolve quote decimal m (sorted_keys m))
        → lookup name m ≡ some svc
        → All Covers (mounts_at resolve quote decimal name (some svc))
    at_service m name svc ok found =
        let each =
          All-sort_stable text_lt (λ k. All Covers (mounts_at resolve quote decimal k (lookup k m)))
            (keys m) (service_mounts-Covers m (sorted_keys m) ok) in
        rw found at (
          All-keys (λ k. All Covers (mounts_at resolve quote decimal k (lookup k m))) m name svc
            each found)

    at_job :
        (m : Dict Text JobConfig) (name : Text) (job : JobConfig)
        → All Covers (job_mounts resolve quote decimal m (sorted_keys m))
        → lookup name m ≡ some job
        → All Covers (job_mounts_at resolve quote decimal name (some job))
    at_job m name job ok found =
        let each =
          All-sort_stable text_lt
            (λ k. All Covers (job_mounts_at resolve quote decimal k (lookup k m))) (keys m)
            (job_mounts-Covers m (sorted_keys m) ok) in
        rw found at (
          All-keys (λ k. All Covers (job_mounts_at resolve quote decimal k (lookup k m))) m name job
            each found)

    container_mounts-Covers :
        (p : Project) (c : ContainerSpec)
        → All Covers (container_mounts resolve quote decimal (all_services p) p.jobs)
        → IsContainer p c
        → (who : Text) × Covers (record { who = who; volumes = c.volumes })
    unfolding container_mounts
    container_mounts-Covers p c ok is_one =
        let (services, jobs) =
          split-All Covers
            (service_mounts resolve quote decimal (all_services p) (sorted_keys (all_services p)))
            (job_mounts resolve quote decimal p.jobs (sorted_keys p.jobs)) ok in
        elim is_one [
          | of_service name svc found same ↦
              let (here, _) =
                at_service (all_services p) name svc services
                  (all_services-IsService p name svc found) in
              (codes "service " ++ quote name, rw same here)
          | of_hook name svc i found at_i ↦
              let (_, hooks) =
                at_service (all_services p) name svc services
                  (all_services-IsService p name svc found) in
              hook_mounts-Covers name 0 svc.pre_start i c hooks at_i
          | of_job name job found same ↦
              let (here, _) = at_job p.jobs name job jobs found in
              (codes "job " ++ quote name, rw same here)
        ]

  -- A folder of the host that some container of the project is given, with links followed where they
  -- can be, and whether it may be written.
  pub data IsBind (p : Project) : Text → Bool → Type 0 where
    mounted :
        {folder : Text} {writes : Bool} (c : ContainerSpec) (i : ℕ) (v : ServiceVolume)
        (path : Text)
        → IsContainer p c
        → get_elem? c.volumes i ≡ some v
        → IsSource resolve quote h p.volumes v path writes
        → folder ≡ real_or path (resolve path)
        → IsBind p folder writes

  all_binds-IsBind :
      (P : Bind → Type 0) (p : Project) (folder : Text) (writes : Bool)
      → All P (
          all_binds resolve quote h p.volumes
            (container_mounts resolve quote decimal (all_services p) p.jobs))
      → IsBind p folder writes
      → (who : Text) × P (record { who = who; src = folder; rw = writes })
  all_binds-IsBind P p folder writes ok (mounted c i v path is_one at_i is_source at) =
      let (who, here) =
        container_mounts-Covers P p.volumes p c
          (all_binds-Covers P p.volumes
            (container_mounts resolve quote decimal (all_services p) p.jobs) ok)
          is_one in
      (who, rw at (Covers-mount P p.volumes who path c.volumes i v writes here at_i is_source))

  -- In a project without violations no container may write to a bind of the app folder itself, if that
  -- is known, and no bind of a container lies strictly inside a writable bind of the same or another
  -- one. The containers are the services, those behind a profile included, their pre_start hooks and
  -- the jobs; the binds are paths, relative ones included, and named volumes that bind a host folder.
  pub validate_project-lies_below :
      (app : Text) (refs : List FileRef) (p : Project) (a b : Text) (writes : Bool)
      → validate_project resolve quote decimal h app refs p ≡ []
      → IsBind p a true
      → IsBind p b writes
      → ((h.app_real ≡ []) ⊎ ((a == h.app_real) ≡ false)) × ((within b a ≡ false) ⊎ (b ≡ a))
  validate_project-lies_below app refs p a b writes passes is_a is_b =
      let (apps, nested) = validate_project-all_binds resolve quote decimal h app refs p passes in
      let (who, not_app) = all_binds-IsBind _ p a true apps is_a in
      let (who', below) = all_binds-IsBind _ p a true nested is_a in
      let (who'', apart) = all_binds-IsBind _ p b writes below is_b in
      (
        elim (Bool-cases (h.app_real == [])) [
          | inl unknown ↦ inl ((text_beq_iff h.app_real []).0 unknown)
          | inr known ↦ inr (ground (arith, known, not_app))
        ],
        elim (Bool-cases (within b a)) [
          | inl inside ↦ inr (ground (arith, inside, apart, text_beq_iff b a))
          | inr outside ↦ inl outside
        ],
      )
