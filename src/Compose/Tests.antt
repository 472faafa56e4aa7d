-- ===== src/Compose/Tests.antt =====
-- internal/compose at concrete inputs.
use simpledeploy.Prelude.{
  ◌⊎◌, if◌then◌else◌, ◌==◌, ℕ, ◌≡◌, inr, refl, true, false, Option, none, some, List, [], ◌∷◌, All,
}
use simpledeploy.Prelude.Text.{
  Text, text_eq, text_beq, codes, has_prefix, to_lower, trim_space, trim_prefix, contains_byte,
  split, trim_left,
}
use simpledeploy.Prelude.Dict.{lookup, insert}
use simpledeploy.Prelude.Sort.{sort_stable, insert_sorted}
use simpledeploy.Paths.{clean, clean_loop, join_slash, up_to_slash, trim_slashes, after_slash}
use simpledeploy.Compose.HostPath.{
  confined, within, protected_reason, in_app, lexical, bind_reason, HostPaths,
}
use simpledeploy.Compose.HostPath.Safe.{NoLinkAbove}
use simpledeploy.Compose.HostPath.Within.{tail, render}
use simpledeploy.Compose.ResolvePath.{FileSystem, missing, resolve_path_loop, resolve_path}
use simpledeploy.Compose.ResolvePath.Ends.{resolve_path-ends}
use simpledeploy.Compose.Build.{build_violations}
use simpledeploy.Compose.Container.{
  ServiceVolume, ContainerSpec, to_upper, normalize_cap, remove_spaces, cut_option,
  unsafe_security_opt, unsafe_spelt, cap_violations, opt_violations, volume_reason,
  volume_violations, file_violations, mode_violations, device_violations, container_violations,
  prefixed,
}
use simpledeploy.Compose.Security.{
  ServiceConfig, Project, for_keys, not_own, hook_violations, service_reasons, validate_service,
  ref_violations,
}
use simpledeploy.Compose.Container.Contained.{IsIsolated, IsLimited}
use simpledeploy.Compose.Endpoint.{
  EndpointConfig, valid_protocol, normalize_protocol, valid_path, effective_tls, endpoint_match_key,
  check_endpoint, endpoints_loop, validate_endpoints,
}
use simpledeploy.Compose.Endpoint.Distinct.{IsValidEndpoint, AllTogether, validate_endpoints-nil}
use simpledeploy.Compose.Layout.{
  add_once, container_binds, all_binds, app_messages, below_messages, nested_messages, layout_of,
  bind_layout_violations,
}
use simpledeploy.Compose.Validate.{
  overwrite, all_services, hook_mounts, service_mounts, job_mounts, container_mounts,
  validate_project,
}
use simpledeploy.Compose.Validate.Sound.{
  IsSafeVolume, of_service, of_hook, validate_project-IsLimited, validate_project-IsSafeVolume,
}
use simpledeploy.Compose.Validate.Binds.{IsBind, mounted, validate_project-lies_below}
use simpledeploy.Compose.Validate.Sources.{of_path}

-- No path is a link.
abbrev no_links : Text → Option Text
no_links p = some p

abbrev plain : Text → Text
plain t = t

abbrev one_digit : ℕ → Text
one_digit n = codes "1"

abbrev shop_folder : HostPaths
shop_folder = record {
  app_dir = codes "/apps/shop";
  app_real = codes "/apps/shop";
  data_dirs = codes "/data" ∷ [];
  apps_dirs = codes "/apps" ∷ [];
  allowed = codes "/var/lib/media" ∷ [];
}

same_links : NoLinkAbove no_links shop_folder
same_links p inside found = refl

abbrev data_folder : ServiceVolume
data_folder = record { kind = codes "bind"; source = codes "/apps/shop/data"; read_only = false }

abbrev media_folder : ServiceVolume
media_folder = record { kind = codes "bind"; source = codes "/var/lib/media"; read_only = true }

abbrev bare : List ServiceVolume → ContainerSpec
bare volumes = record {
  privileged = false;
  use_api_socket = false;
  network_mode = [];
  pid = [];
  ipc = codes "private";
  uts = [];
  user_ns_mode = [];
  cgroup = [];
  cap_add = codes "chown" ∷ [];
  security_opt = codes "no-new-privileges:true" ∷ [];
  devices = 0;
  device_cgroup_rules = 0;
  volumes_from = 0;
  volumes = volumes;
  env_files = codes "/apps/shop/app.env" ∷ [];
  label_files = [];
}

-- A service with one hook, behind a profile.
abbrev web : ServiceConfig
web = record {
  spec = bare (data_folder ∷ media_folder ∷ []);
  pre_start = bare (data_folder ∷ []) ∷ [];
  privileged_hooks = false ∷ [];
  has_provider = false;
  build = none;
}

abbrev shop : Project
shop = record {
  name = codes "simpledeploy-shop";
  services = [];
  disabled_services = (codes "web", web) ∷ [];
  jobs = [];
  volumes = [];
  networks = [];
  secrets = [];
  configs = [];
}

shop_passes : validate_project no_links plain one_digit shop_folder (codes "shop") [] shop ≡ []
unfolding validate_project all_services overwrite sort_stable insert_sorted lookup insert text_beq
    for_keys prefixed not_own hook_violations service_reasons validate_service ref_violations
    container_violations mode_violations cap_violations opt_violations device_violations
    volume_violations volume_reason file_violations build_violations normalize_cap to_upper
    unsafe_security_opt unsafe_spelt cut_option remove_spaces to_lower trim_space trim_left
    trim_prefix has_prefix bind_reason lexical protected_reason in_app within confined clean
    clean_loop join_slash split container_mounts service_mounts hook_mounts job_mounts
    bind_layout_violations layout_of all_binds container_binds add_once app_messages below_messages
    nested_messages
shop_passes = refl

validate_project-IsLimited_example :
    IsIsolated (bare (data_folder ∷ []))
    × IsLimited no_links plain shop_folder (bare (data_folder ∷ []))
unfolding all_services overwrite lookup insert text_beq
validate_project-IsLimited_example =
    validate_project-IsLimited no_links plain one_digit shop_folder (codes "shop") [] shop
      shop_passes (bare (data_folder ∷ [])) (of_hook (codes "web") web 0 (inr (refl, refl)) refl)

validate_project-IsSafeVolume_example : All (IsSafeVolume no_links shop_folder) web.spec.volumes
unfolding all_services overwrite lookup insert text_beq
validate_project-IsSafeVolume_example =
    validate_project-IsSafeVolume no_links plain one_digit shop_folder (codes "shop") [] shop
      shop_passes web.spec (of_service (codes "web") web (inr (refl, refl)) refl) same_links

data_bound : IsBind no_links plain one_digit shop_folder shop (codes "/apps/shop/data") true
unfolding clean clean_loop join_slash split has_prefix text_beq lookup
data_bound =
    mounted web.spec 0 data_folder (codes "/apps/shop/data")
      (of_service (codes "web") web (inr (refl, refl)) refl) refl
      (of_path refl refl refl refl refl refl) refl

media_bound : IsBind no_links plain one_digit shop_folder shop (codes "/var/lib/media") false
unfolding clean clean_loop join_slash split has_prefix text_beq lookup
media_bound =
    mounted web.spec 1 media_folder (codes "/var/lib/media")
      (of_service (codes "web") web (inr (refl, refl)) refl) refl
      (of_path refl refl refl refl refl refl) refl

validate_project-lies_below_example :
    ((shop_folder.app_real ≡ []) ⊎ ((codes "/apps/shop/data" == shop_folder.app_real) ≡ false))
    × ((within (codes "/var/lib/media") (codes "/apps/shop/data") ≡ false)
        ⊎ (codes "/var/lib/media" ≡ codes "/apps/shop/data"))
validate_project-lies_below_example =
    validate_project-lies_below no_links plain one_digit shop_folder (codes "shop") [] shop
      (codes "/apps/shop/data") (codes "/var/lib/media") false shop_passes data_bound media_bound

abbrev site : EndpointConfig
site = record {
  domain = codes "a.io";
  port = codes "80";
  tls = [];
  service = codes "web";
  protocol = [];
  path = [];
  index = 0;
}

-- A path of the same domain, with the same tls mode.
abbrev api_path : EndpointConfig
api_path = record site {
  tls = codes "auto";
  protocol = codes "http";
  path = codes "/api/*";
  index = 1;
}

site_passes : validate_endpoints plain one_digit (site ∷ api_path ∷ []) ≡ []
unfolding validate_endpoints endpoints_loop check_endpoint valid_protocol normalize_protocol
    valid_path effective_tls endpoint_match_key lookup insert text_beq to_lower trim_space trim_left
site_passes = refl

validate_endpoints-nil_example :
    All IsValidEndpoint (site ∷ api_path ∷ []) × AllTogether (site ∷ api_path ∷ [])
validate_endpoints-nil_example =
    validate_endpoints-nil plain one_digit (site ∷ api_path ∷ []) site_passes

-- Only the root exists.
abbrev empty_disk : FileSystem
empty_disk = record {
  eval_symlinks = λ p. if p == codes "/" then some p else none;
  lstat = λ p. missing;
}

resolve_path-ends_example :
    (out : Option Text) × (resolve_path_loop empty_disk 5 (codes "/a/b") (codes "/a/b") []
      ≡ some out)
    × (resolve_path empty_disk (codes "/a/b") ≡ out)
unfolding render tail contains_byte text_beq
resolve_path-ends_example =
    resolve_path-ends empty_disk (codes "a" ∷ codes "b" ∷ [])
      ((refl, refl, refl), ((refl, refl, refl), tt))

resolves_missing : resolve_path empty_disk (codes "/a/b") ≡ some (codes "/a/b")
unfolding resolve_path resolve_path_loop clean clean_loop join_slash up_to_slash trim_slashes
    after_slash contains_byte split text_beq
resolves_missing = refl
