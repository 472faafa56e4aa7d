-- ===== src/Compose/Validate/Clean.antt =====
-- The containers of a service or a job in which no violation is found.
use simpledeploy.Prelude.{
  ℕ, suc, zero, ◌+◌, ◌≡◌, ◌∙◌, sym, refl, arith, Option, some, List, [], ◌∷◌, ◌++◌, any, get_elem?,
}
use simpledeploy.Prelude.Text.{Text, text_eq, codes}
use simpledeploy.Compose.HostPath.{HostPaths}
use simpledeploy.Compose.Build.{build_violations}
use simpledeploy.Compose.Container.{ContainerSpec, container_violations, when, prefixed}
use simpledeploy.Compose.Security.{
  ServiceConfig, JobConfig, not_own, service_prefix, hook_prefix, job_prefix, hook_violations,
  service_reasons, validate_service, validate_job,
}
use simpledeploy.Compose.Container.Contained.{nil-left}
use simpledeploy.Compose.Validate.Loops.{prefixed-nil, prefixed-front, not_own-nil}

module _ (resolve : Text → Option Text) (quote : Text → Text) (decimal : ℕ → Text)
    (h : HostPaths) where
  pub hooks-nil :
      (name : Text) (i : ℕ) (cs : List ContainerSpec) (k : ℕ) (c : ContainerSpec)
      → hook_violations resolve quote decimal h name [] i cs ≡ []
      → get_elem? cs k ≡ some c
      → container_violations resolve quote h c ≡ []
  unfolding hook_violations
  hooks-nil name i [] k c e found = cc
  hooks-nil name i (d ∷ cs) zero c e found =
      let rest = hook_violations resolve quote decimal h name [] (i + 1) cs in
      let (first, _) =
        prefixed-front (hook_prefix quote decimal name i)
          (not_own [] (container_violations resolve quote h d)) rest e in
      let same : d ≡ c = ground arith in
      rw (← same) (sym (not_own-nil (container_violations resolve quote h d)) ∙ first)
  hooks-nil name i (d ∷ cs) (suc k) c e found =
      let (_, rest) =
        prefixed-front (hook_prefix quote decimal name i)
          (not_own [] (container_violations resolve quote h d))
          (hook_violations resolve quote decimal h name [] (i + 1) cs) e in
      hooks-nil name (i + 1) cs k c rest found

  pub own-nil :
      (what name : Text) (own : List Text) (cs : List ContainerSpec)
      → prefixed what own ++ hook_violations resolve quote decimal h name own 0 cs ≡ []
      → (own ≡ []) × (hook_violations resolve quote decimal h name [] 0 cs ≡ [])
  unfolding prefixed
  own-nil what name [] cs e = (refl, e)
  own-nil what name (o ∷ own) cs e = cc

  pub service-nil :
      (name : Text) (svc : ServiceConfig)
      → validate_service resolve quote decimal h name svc ≡ []
      → (service_reasons resolve quote decimal h svc ≡ [])
        × (hook_violations resolve quote decimal h name [] 0 svc.pre_start ≡ [])
  unfolding validate_service
  service-nil name svc e =
      own-nil (service_prefix quote name) name (service_reasons resolve quote decimal h svc)
        svc.pre_start e

  pub reasons-nil :
      (svc : ServiceConfig)
      → service_reasons resolve quote decimal h svc ≡ []
      → container_violations resolve quote h svc.spec ≡ []
  unfolding service_reasons
  reasons-nil svc e =
      let spec = container_violations resolve quote h svc.spec in
      let hooks =
        when (any (λ p. p) svc.privileged_hooks)
          (codes "privileged post_start/pre_stop hooks not allowed") in
      let provider = when svc.has_provider (codes "provider services not allowed") in
      let build = build_violations resolve quote h svc.build in
      nil-left spec hooks
        (nil-left (spec ++ hooks) provider (nil-left (spec ++ hooks ++ provider) build e))

  pub job-nil :
      (name : Text) (job : JobConfig)
      → validate_job resolve quote decimal h name job ≡ []
      → container_violations resolve quote h job.spec ≡ []
  unfolding validate_job
  job-nil name job e =
      nil-left (container_violations resolve quote h job.spec)
        (build_violations resolve quote h job.build)
        (prefixed-nil (job_prefix quote name)
          (container_violations resolve quote h job.spec
            ++ build_violations resolve quote h job.build)
          e)
