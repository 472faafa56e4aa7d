-- ===== src/Compose/Validate.antt =====
-- ValidateComposeSecurity of internal/compose/validate.go as a whole.
pub mod Loops
pub mod Clean
pub mod Sound
pub mod Sources
pub mod Binds
use simpledeploy.Prelude.{
  ℕ, ◌+◌, Bool, true, false, not, ◌&&◌, ◌||◌, ◌≡◌, ◌⊎◌, ◌∙◌, sym, refl, arith, Option, none, some,
  List, [], ◌∷◌, ◌++◌, if◌then◌else◌, ◌==◌, any, All, Bool-cases, inl, inr, beq_self,
}
use simpledeploy.Prelude.Text.{Text, text_eq, text_lt, text_beq_iff, codes}
use simpledeploy.Prelude.Dict.{Dict, lookup, insert, lookup-insert, IsMap}
use simpledeploy.Prelude.Sort.{sort_stable, All-sort_stable}
use simpledeploy.Compose.HostPath.{
  HostPaths, Protected, new_host_paths, in_app, lexical, bind_reason,
}
use simpledeploy.Compose.HostPath.Safe.{IsClear, NoLinkAbove, bind_reason-safe}
use simpledeploy.Compose.Build.{build_violations}
use simpledeploy.Compose.Container.{
  ServiceVolume, ContainerSpec, is_host_volume, volume_reason, container_violations, prefixed,
}
use simpledeploy.Compose.Security.{
  ServiceConfig, JobConfig, NetworkConfig, FileObject, FileRef, Project, keys, sorted_keys, at_key,
  for_keys, not_own, hook_violations, service_reasons, validate_service, validate_job,
  validate_network, validate_file, ref_violations,
}
use simpledeploy.Compose.Volume.{VolumeConfig, validate_volume}
use simpledeploy.Compose.Container.Contained.{
  nil-left, nil-right, IsIsolated, IsLimited, container_violations-nil,
}
use simpledeploy.Compose.Layout.{Mounts, bind_layout_violations}

-- Each entry of the second map, in any order, over the first.
unfoldable pub overwrite {ℓ} : {V : Type ℓ} → Dict Text V → Dict Text V → Dict Text V
overwrite base [] = base
overwrite base ((k, v) ∷ m) = insert k v (overwrite base m)

-- The services, those behind an inactive profile included.
unfoldable pub all_services : Project → Dict Text ServiceConfig
unfolding overwrite
all_services p = overwrite (overwrite [] p.disabled_services) p.services

module _ (resolve : Text → Option Text) (quote : Text → Text) (decimal : ℕ → Text) where
  unfoldable pub hook_mounts : Text → ℕ → List ContainerSpec → List Mounts
  hook_mounts name i [] = []
  hook_mounts name i (c ∷ cs) =
      record {
        who = codes "service " ++ quote name ++ codes " pre_start hook " ++ decimal (i + 1);
        volumes = c.volumes;
      }
      ∷ hook_mounts name (i + 1) cs

  abbrev pub mounts_at : Text → Option ServiceConfig → List Mounts
  mounts_at name none = []
  mounts_at name (some svc) =
      record { who = codes "service " ++ quote name; volumes = svc.spec.volumes }
      ∷ hook_mounts name 0 svc.pre_start

  unfoldable pub service_mounts : Dict Text ServiceConfig → List Text → List Mounts
  unfolding hook_mounts
  service_mounts m [] = []
  service_mounts m (k ∷ ks) = mounts_at k (lookup k m) ++ service_mounts m ks

  abbrev pub job_mounts_at : Text → Option JobConfig → List Mounts
  job_mounts_at name none = []
  job_mounts_at name (some job) =
      record { who = codes "job " ++ quote name; volumes = job.spec.volumes } ∷ []

  unfoldable pub job_mounts : Dict Text JobConfig → List Text → List Mounts
  job_mounts m [] = []
  job_mounts m (k ∷ ks) = job_mounts_at k (lookup k m) ++ job_mounts m ks

  unfoldable pub container_mounts : Dict Text ServiceConfig → Dict Text JobConfig → List Mounts
  unfolding service_mounts job_mounts
  container_mounts services jobs =
      service_mounts services (sorted_keys services) ++ job_mounts jobs (sorted_keys jobs)

  -- `app` is the name of the app.
  unfoldable pub validate_project : HostPaths → Text → List FileRef → Project → List Text
  unfolding ref_violations for_keys validate_service validate_job validate_volume validate_network
      validate_file container_mounts bind_layout_violations all_services
  validate_project h app refs p =
      let services = all_services p in
      ref_violations resolve quote decimal h refs
      ++ for_keys (validate_service resolve quote decimal h) services (sorted_keys services)
      ++ for_keys (validate_job resolve quote decimal h) p.jobs (sorted_keys p.jobs)
      ++ for_keys (validate_volume resolve quote decimal h app p.name) p.volumes
          (sorted_keys p.volumes)
      ++ for_keys (validate_network resolve quote decimal h) p.networks (sorted_keys p.networks)
      ++ bind_layout_violations resolve quote h p.volumes (container_mounts services p.jobs)
      ++ for_keys (validate_file resolve quote decimal h (codes "secret ")) p.secrets
          (sorted_keys p.secrets)
      ++ for_keys (validate_file resolve quote decimal h (codes "config ")) p.configs
          (sorted_keys p.configs)

  abbrev pub validate_parsed : HostPaths → Text → List FileRef → Option Project → List Text
  validate_parsed h app refs none = codes "compose file could not be checked" ∷ []
  validate_parsed h app refs (some p) = validate_project h app refs p

  -- `abs` is filepath.Abs.
  unfoldable pub validate_compose_security :
      (Text → Option Text) → Protected → Text → Text → List FileRef → Option Project → List Text
  unfolding validate_project
  validate_compose_security abs protected compose_path app refs p =
      validate_parsed (new_host_paths resolve abs protected compose_path) app refs p
