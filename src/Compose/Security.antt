-- ===== src/Compose/Security.antt =====
-- ValidateComposeSecurity of internal/compose/validate.go, with its checks of services, jobs,
-- volumes and the layout of bind mounts. `quote` and `decimal` are the verbs %q and %d.
use simpledeploy.Prelude.{
  ℕ, ◌+◌, Bool, not, ◌&&◌, ◌||◌, Option, none, some, List, [], ◌∷◌, ◌++◌, if◌then◌else◌, ◌==◌, any,
}
use simpledeploy.Prelude.Text.{Text, text_eq, text_lt, codes, has_prefix, to_lower, trim_space}
use simpledeploy.Prelude.Dict.{Dict, lookup}
use simpledeploy.Prelude.Sort.{sort_stable}
use simpledeploy.Compose.HostPath.{HostPaths, confined}
use simpledeploy.Compose.Build.{BuildConfig, build_violations}
use simpledeploy.Compose.Container.{
  ContainerSpec, equal_fold, when, outside_app, container_violations, prefixed,
}
use simpledeploy.Compose.Volume.{VolumeConfig}

pub record ServiceConfig : Type 0 where
  pub spec : ContainerSpec
  pub pre_start : List ContainerSpec
  pub privileged_hooks : List Bool
  pub has_provider : Bool
  pub build : Option BuildConfig

pub record JobConfig : Type 0 where
  pub spec : ContainerSpec
  pub build : Option BuildConfig

pub record NetworkConfig : Type 0 where
  pub name : Text
  pub driver : Text

-- A secret or a config.
pub record FileObject : Type 0 where
  pub file : Text
  pub is_external : Bool

pub record FileRef : Type 0 where
  pub kind : Text
  pub path : Text

pub record Project : Type 0 where
  pub name : Text
  pub services : Dict Text ServiceConfig
  pub disabled_services : Dict Text ServiceConfig
  pub jobs : Dict Text JobConfig
  pub volumes : Dict Text VolumeConfig
  pub networks : Dict Text NetworkConfig
  pub secrets : Dict Text FileObject
  pub configs : Dict Text FileObject

abbrev pub keys {ℓ} : {V : Type ℓ} → Dict Text V → List Text
keys [] = []
keys ((k, v) ∷ m) = k ∷ keys m

abbrev pub sorted_keys {ℓ} : {V : Type ℓ} → Dict Text V → List Text
sorted_keys m = sort_stable text_lt (keys m)

-- The loop over the sorted keys of a map.
abbrev pub at_key {ℓ} : {V : Type ℓ} → (Text → V → List Text) → Text → Option V → List Text
at_key check key none = []
at_key check key (some v) = check key v

unfoldable pub for_keys {ℓ} :
    {V : Type ℓ} → (Text → V → List Text) → Dict Text V → List Text → List Text
for_keys check m [] = []
for_keys check m (k ∷ ks) = at_key check k (lookup k m) ++ for_keys check m ks

unfoldable pub not_own : List Text → List Text → List Text
not_own own [] = []
not_own own (r ∷ rs) = let rest = not_own own rs in if any (λ o. o == r) own then rest else r ∷ rest

abbrev pub service_prefix : (Text → Text) → Text → Text
service_prefix quote name = codes "service " ++ quote name ++ codes ": "

abbrev pub hook_prefix : (Text → Text) → (ℕ → Text) → Text → ℕ → Text
hook_prefix quote decimal name i =
    codes "service " ++ quote name ++ codes " pre_start hook " ++ decimal (i + 1) ++ codes ": "

abbrev pub job_prefix : (Text → Text) → Text → Text
job_prefix quote name = codes "job " ++ quote name ++ codes ": "

module _ (resolve : Text → Option Text) (quote : Text → Text) (decimal : ℕ → Text)
    (h : HostPaths) where
  abbrev pub check_container : ContainerSpec → List Text
  check_container = container_violations resolve quote h

  unfoldable pub hook_violations : Text → List Text → ℕ → List ContainerSpec → List Text
  unfolding prefixed not_own
  hook_violations name own i [] = []
  hook_violations name own i (c ∷ cs) =
      prefixed (hook_prefix quote decimal name i) (not_own own (check_container c))
      ++ hook_violations name own (i + 1) cs

  -- What is wrong with the service itself.
  unfoldable pub service_reasons : ServiceConfig → List Text
  service_reasons svc =
      check_container svc.spec
      ++ when (any (λ p. p) svc.privileged_hooks)
          (codes "privileged post_start/pre_stop hooks not allowed")
      ++ when svc.has_provider (codes "provider services not allowed")
      ++ build_violations resolve quote h svc.build

  unfoldable pub validate_service : Text → ServiceConfig → List Text
  unfolding hook_violations service_reasons prefixed
  validate_service name svc =
      prefixed (service_prefix quote name) (service_reasons svc)
      ++ hook_violations name (service_reasons svc) 0 svc.pre_start

  unfoldable pub validate_job : Text → JobConfig → List Text
  unfolding prefixed
  validate_job name job =
      prefixed (job_prefix quote name)
        (check_container job.spec ++ build_violations resolve quote h job.build)

  unfoldable pub validate_network : Text → NetworkConfig → List Text
  validate_network key n =
      let name = to_lower (trim_space n.name) in
      when
        (name == codes "host"
          || has_prefix name (codes "container:")
          || equal_fold (trim_space n.driver) (codes "host"))
        (codes "network " ++ quote key ++ codes ": host or container networking not allowed")

  unfoldable pub validate_file : Text → Text → FileObject → List Text
  validate_file what key f =
      when (not (f.file == []) && not f.is_external && not (confined resolve h f.file))
        (what ++ quote key ++ codes ": file " ++ quote f.file ++ outside_app)

  abbrev ref_reasons : FileRef → List Text
  ref_reasons r =
      if r.kind == codes "include"
      then codes "\"include\" is not supported: put all services in docker-compose.yml" ∷ []
      else if r.kind == codes "extends"
      then when (not (confined resolve h r.path))
          (codes "extends file " ++ quote r.path ++ outside_app)
      else []

  unfoldable pub ref_violations : List FileRef → List Text
  ref_violations [] = []
  ref_violations (r ∷ rs) = ref_reasons r ++ ref_violations rs
