-- ===== src/Compose/Validate/Sound.antt =====
-- What holds of a compose project in which no violation is found.
use simpledeploy.Prelude.{
  ℕ, Bool, true, false, ◌&&◌, ◌≡◌, ◌⊎◌, refl, Option, none, some, List, [], ◌∷◌, ◌++◌, All, inl,
  inr, get_elem?,
}
use simpledeploy.Prelude.Text.{Text, text_eq, codes}
use simpledeploy.Prelude.Dict.{lookup}
use simpledeploy.Compose.HostPath.{HostPaths, in_app, lexical}
use simpledeploy.Compose.HostPath.Safe.{IsClear, NoLinkAbove, bind_reason-safe}
use simpledeploy.Compose.Container.{
  ServiceVolume, ContainerSpec, is_host_volume, volume_reason, container_violations,
}
use simpledeploy.Compose.Security.{
  ServiceConfig, JobConfig, FileRef, Project, sorted_keys, for_keys, validate_service, validate_job,
  validate_network, validate_file, ref_violations,
}
use simpledeploy.Compose.Volume.{validate_volume}
use simpledeploy.Compose.Container.Contained.{
  nil-left, nil-right, IsIsolated, IsLimited, container_violations-nil,
}
use simpledeploy.Compose.Layout.{
  all_binds, binds_app, lies_below, layout_of-nil, bind_layout_violations,
}
use simpledeploy.Compose.Validate.{all_services, container_mounts, validate_project}
use simpledeploy.Compose.Validate.Loops.{sorted-nil, lookup-overwrite}
use simpledeploy.Compose.Validate.Clean.{hooks-nil, service-nil, reasons-nil, job-nil}

-- The volume is no bind of a host path, or its real path is in the app folder or is clear.
abbrev pub IsSafeVolume : (Text → Option Text) → HostPaths → ServiceVolume → Type 0
IsSafeVolume resolve h v =
    (is_host_volume v ≡ false)
    ⊎ ((real : Text) × (resolve (lexical h v.source) ≡ some real)
        × ((in_app h (lexical h v.source) real ≡ true) ⊎ IsClear h v.read_only real))

-- A service of the project, or one behind an inactive profile whose name no service has.
abbrev pub IsService : Project → Text → ServiceConfig → Type 0
IsService p name svc =
    (lookup name p.services ≡ some svc)
    ⊎ ((lookup name p.services ≡ none) × (lookup name p.disabled_services ≡ some svc))

-- The containers of a project: services, pre_start hooks and jobs.
pub data IsContainer (p : Project) : ContainerSpec → Type 0 where
  of_service :
      {c : ContainerSpec} (name : Text) (svc : ServiceConfig)
      → IsService p name svc
      → c ≡ svc.spec
      → IsContainer p c
  of_hook :
      {c : ContainerSpec} (name : Text) (svc : ServiceConfig) (i : ℕ)
      → IsService p name svc
      → get_elem? svc.pre_start i ≡ some c
      → IsContainer p c
  of_job :
      {c : ContainerSpec} (name : Text) (job : JobConfig)
      → lookup name p.jobs ≡ some job
      → c ≡ job.spec
      → IsContainer p c

pub all_services-IsService :
    (p : Project) (name : Text) (svc : ServiceConfig)
    → IsService p name svc
    → lookup name (all_services p) ≡ some svc
unfolding all_services
all_services-IsService p name svc (inl active) = rw (lookup-overwrite, active) refl
all_services-IsService p name svc (inr (inactive, found)) =
    rw (lookup-overwrite, inactive, lookup-overwrite, found) refl

module _ (resolve : Text → Option Text) (quote : Text → Text) (decimal : ℕ → Text)
    (h : HostPaths) where
  module _ (app : Text) (refs : List FileRef) (p : Project)
      (e : validate_project resolve quote decimal h app refs p ≡ []) where
    services : List Text
    services =
        for_keys (validate_service resolve quote decimal h) (all_services p)
          (sorted_keys (all_services p))

    jobs : List Text
    jobs = for_keys (validate_job resolve quote decimal h) p.jobs (sorted_keys p.jobs)

    layout : List Text
    layout =
        bind_layout_violations resolve quote h p.volumes
          (container_mounts resolve quote decimal (all_services p) p.jobs)

    parts-nil : (services ≡ []) × (jobs ≡ []) × (layout ≡ [])
    unfolding validate_project services jobs layout
    parts-nil =
        let refs' = ref_violations resolve quote decimal h refs in
        let volumes =
          for_keys (validate_volume resolve quote decimal h app p.name) p.volumes
            (sorted_keys p.volumes) in
        let networks =
          for_keys (validate_network resolve quote decimal h) p.networks (sorted_keys p.networks) in
        let secrets =
          for_keys (validate_file resolve quote decimal h (codes "secret ")) p.secrets
            (sorted_keys p.secrets) in
        let configs =
          for_keys (validate_file resolve quote decimal h (codes "config ")) p.configs
            (sorted_keys p.configs) in
        let e1 =
          nil-left (refs' ++ services ++ jobs ++ volumes ++ networks ++ layout ++ secrets) configs
            e in
        let e2 = nil-left (refs' ++ services ++ jobs ++ volumes ++ networks ++ layout) secrets e1 in
        let e3 = nil-left (refs' ++ services ++ jobs ++ volumes ++ networks) layout e2 in
        let e4 = nil-left (refs' ++ services ++ jobs ++ volumes) networks e3 in
        let e5 = nil-left (refs' ++ services ++ jobs) volumes e4 in
        let e6 = nil-left (refs' ++ services) jobs e5 in
        (
          nil-right refs' services e6,
          nil-right (refs' ++ services) jobs e5,
          nil-right (refs' ++ services ++ jobs ++ volumes ++ networks) layout e2,
        )

    service-clean :
        (name : Text) (svc : ServiceConfig)
        → IsService p name svc
        → validate_service resolve quote decimal h name svc ≡ []
    unfolding services
    service-clean name svc found =
        sorted-nil (validate_service resolve quote decimal h) (all_services p) name svc parts-nil.0
          (all_services-IsService p name svc found)

    container-clean :
        (c : ContainerSpec) → IsContainer p c → container_violations resolve quote h c ≡ []
    unfolding jobs
    container-clean c (of_service name svc found same) = rw same (
        reasons-nil resolve quote decimal h svc
          (service-nil resolve quote decimal h name svc (service-clean name svc found)).0)
    container-clean c (of_hook name svc i found at_i) =
        hooks-nil resolve quote decimal h name 0 svc.pre_start i c
          (service-nil resolve quote decimal h name svc (service-clean name svc found)).1 at_i
    container-clean c (of_job name job found same) = rw same (
        job-nil resolve quote decimal h name job
          (sorted-nil (validate_job resolve quote decimal h) p.jobs name job parts-nil.1 found))

    -- In a project without violations every service, pre_start hook and job, those behind a profile
    -- included, runs unprivileged and apart from the host: with no namespace of the host, no network or
    -- memory of a container given as "container:", no process namespace but its own, none of the
    -- capabilities of host_caps, none of the options of unconfined_opts, no devices and no volumes_from,
    -- bind mounts for which no reason against them is found, and env and label files inside the app
    -- folder. Networks and memory may be shared with services of the project.
    pub validate_project-IsLimited :
        (c : ContainerSpec) → IsContainer p c → IsIsolated c × IsLimited resolve quote h c
    validate_project-IsLimited c is_one =
        container_violations-nil resolve quote h c (container-clean c is_one)

    volumes-safe :
        (vs : List ServiceVolume)
        → NoLinkAbove resolve h
        → All (λ v. volume_reason resolve quote h v ≡ []) vs
        → All (IsSafeVolume resolve h) vs
    unfolding volume_reason
    volumes-safe [] links ok = tt
    volumes-safe (v ∷ vs) links (here, ok) = (one (is_host_volume v) refl, volumes-safe vs links ok)
      where
        one : (host : Bool) → is_host_volume v ≡ host → IsSafeVolume resolve h v
        one false off = inl off
        one true on =
            inr (bind_reason-safe resolve quote h v.read_only v.source links (rw on at here))

    -- In a project without violations every bind mount of every container reaches a real path in the
    -- app's own folder, or one that is clear of other apps, of the data folder and of the system
    -- folders that are not allowed; if no link stands above a path in the app folder that is its own
    -- resolution.
    pub validate_project-IsSafeVolume :
        (c : ContainerSpec)
        → IsContainer p c
        → NoLinkAbove resolve h
        → All (IsSafeVolume resolve h) c.volumes
    validate_project-IsSafeVolume c is_one links =
        let (_, _, _, volumes, _, _) = (validate_project-IsLimited c is_one).1 in
        volumes-safe c.volumes links volumes

    -- The check of the layout finds nothing in its list of binds.
    pub validate_project-all_binds :
        All
          (λ b. binds_app resolve quote h b ≡ false)
          (all_binds resolve quote h p.volumes
            (container_mounts resolve quote decimal (all_services p) p.jobs))
        × All
            (λ a.
              All
                (λ b. (a.rw && lies_below resolve quote h a b) ≡ false)
                (all_binds resolve quote h p.volumes
                  (container_mounts resolve quote decimal (all_services p) p.jobs)))
            (all_binds resolve quote h p.volumes
              (container_mounts resolve quote decimal (all_services p) p.jobs))
    unfolding layout bind_layout_violations
    validate_project-all_binds = layout_of-nil resolve quote h _ parts-nil.2
