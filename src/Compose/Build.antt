-- ===== src/Compose/Build.antt =====
-- buildViolations of internal/compose/validate.go.
use simpledeploy.Prelude.{
  nat_eq, Bool, not, ◌&&◌, ◌||◌, Option, none, some, List, [], ◌∷◌, ◌++◌, if◌then◌else◌, ◌==◌, any,
}
use simpledeploy.Prelude.Text.{contains, Text, text_eq, codes, has_prefix, to_lower, trim_space}
use simpledeploy.Paths.{is_abs, join}
use simpledeploy.Compose.HostPath.{HostPaths, confined}
use simpledeploy.Compose.Container.{equal_fold, when, outside_app, not_allowed, file_violations}

-- `additional_contexts` is in the order of its keys; `ssh` holds the paths.
pub record BuildConfig : Type 0 where
  pub context : Text
  pub dockerfile : Text
  pub dockerfile_inline : Text
  pub additional_contexts : List Text
  pub ssh : List Text
  pub network : Text
  pub privileged : Bool
  pub entitlements : List Text

-- `types.ServicePrefix` is "service:".
unfoldable pub is_local_context : Text → Bool
unfolding contains
is_local_context v =
    not (contains v (codes "://"))
    && not (has_prefix v (codes "service:"))
    && not (
        any (λ p. has_prefix v p)
          (codes "https://"
            ∷ codes "http://"
            ∷ codes "git://"
            ∷ codes "ssh://"
            ∷ codes "github.com/"
            ∷ codes "git@"
            ∷ []))

module _ (resolve : Text → Option Text) (quote : Text → Text) (h : HostPaths) where
  unfoldable pub context_violations : List Text → List Text
  context_violations [] = []
  context_violations (v ∷ vs) =
      when (not (v == []) && is_local_context v && not (confined resolve h v))
        (codes "build context " ++ quote v ++ outside_app)
      ++ context_violations vs

  unfoldable pub entitlement_violations : List Text → List Text
  entitlement_violations [] = []
  entitlement_violations (e ∷ es) =
      let name = to_lower (trim_space e) in
      when (name == codes "security.insecure" || name == codes "network.host")
        (codes "build entitlement " ++ quote e ++ not_allowed)
      ++ entitlement_violations es

  abbrev pub dockerfile_path : BuildConfig → Text
  dockerfile_path b = if is_abs b.dockerfile then b.dockerfile else join b.context b.dockerfile

  abbrev pub is_local : BuildConfig → Bool
  is_local b = not (b.context == []) && is_local_context b.context

  -- `none` is a service that is not built.
  unfoldable pub build_violations : Option BuildConfig → List Text
  unfolding context_violations entitlement_violations
  build_violations none = []
  build_violations (some b) =
      when (is_local b && not (confined resolve h b.context))
        (codes "build context " ++ quote b.context ++ outside_app)
      ++ when
          (is_local b
            && b.dockerfile_inline == []
            && not (b.dockerfile == [])
            && not (confined resolve h (dockerfile_path b)))
          (codes "dockerfile " ++ quote b.dockerfile ++ outside_app)
      ++ context_violations b.additional_contexts
      ++ file_violations resolve quote h (codes "build ssh key ") b.ssh
      ++ when (equal_fold b.network (codes "host")) (codes "build network 'host' not allowed")
      ++ when b.privileged (codes "privileged build not allowed")
      ++ entitlement_violations b.entitlements
