-- ===== src/Proxy/Resolve.antt =====
-- ResolveRoutes of internal/proxy/route.go: the routes of one app. The environment variable, the
-- resolver of container addresses, package net, and the parsers of package strconv and time are
-- parameters; a number or a duration that is not positive is 0.
pub mod Keeps
use simpledeploy.Prelude.{
  ℕ, Bool, true, false, not, ◌&&◌, ◌||◌, Option, none, some, List, [], ◌∷◌, ◌++◌, ltb,
  if◌then◌else◌, ◌==◌, any,
}
use simpledeploy.Prelude.Text.{Text, text_eq, codes, trim_space, split}
use simpledeploy.Prelude.Dict.{Dict, lookup, insert}
use simpledeploy.Net.{Net}
use simpledeploy.Paths.{dir, join}
use simpledeploy.Compose.Endpoint.{
  EndpointConfig, protocol_http, normalize_protocol, valid_protocol, valid_path, effective_tls,
  endpoint_match_key,
}
use simpledeploy.Proxy.RateLimit.{RateLimitConfig}
use simpledeploy.Proxy.Route.{Route}

pub record PortMapping : Type 0 where
  pub host : Text
  pub container : Text

pub record Service : Type 0 where
  pub name : Text
  pub ports : List PortMapping

-- The labels of the rate limit, as written.
pub record RateLimitLabels : Type 0 where
  pub requests : Text
  pub window : Text
  pub burst : Text
  pub by : Text

pub record AppConfig : Type 0 where
  pub name : Text
  pub compose_path : Text
  pub services : List Service
  pub endpoints : List EndpointConfig
  pub rate_limit : RateLimitLabels
  pub access_allow : Text

pub record Outside : Type 1 where
  pub net : Net
  -- SIMPLEDEPLOY_UPSTREAM_HOST, empty if it is not set
  pub upstream_env : Text
  -- `ContainerIP` of project, service and network, if there is a resolver; empty or an error is `none`
  pub container_ip : Text → Text → Text → Option Text
  pub atoi : Text → ℕ
  pub parse_duration : Text → Option ℕ

abbrev pub default_window : ℕ
default_window = 60000000000

unfoldable pub cert_dir_of : Text → Text
cert_dir_of compose_path =
    if compose_path == [] then [] else join (dir compose_path) (codes "certs")

abbrev pub protocol_of : EndpointConfig → Text
protocol_of ep =
    if normalize_protocol ep.protocol == [] then protocol_http else normalize_protocol ep.protocol

abbrev pub tls_or_auto : EndpointConfig → Text
tls_or_auto ep = if ep.tls == [] then codes "auto" else ep.tls

-- The first tls mode of the domain wins.
abbrev pub tls_of : EndpointConfig → Option Text → Text
tls_of ep none = tls_or_auto ep
tls_of ep (some first) =
    if not (effective_tls first == effective_tls (tls_or_auto ep)) then first else tls_or_auto ep

abbrev pub keep_tls : Text → Text → Option Text → Dict Text Text → Dict Text Text
keep_tls domain tls none m = insert domain tls m
keep_tls domain tls (some first) m = m

abbrev pub key_of : EndpointConfig → Text
key_of ep = endpoint_match_key (record ep { protocol = protocol_of ep })

-- The checks on an endpoint before its upstream is asked for.
abbrev pub is_routable : EndpointConfig → Bool
is_routable ep =
    not (ep.domain == [])
    && valid_protocol (protocol_of ep)
    && (ep.path == [] || valid_path ep.path)

module _ (out : Outside) where
  unfoldable pub upstream_host : Text
  upstream_host = if out.upstream_env == [] then codes "localhost" else out.upstream_env

  abbrev pub host_or_dns : EndpointConfig → Option Text → Text
  host_or_dns ep none = ep.service ++ codes ":" ++ ep.port
  host_or_dns ep (some ip) = ip ++ codes ":" ++ ep.port

  unfoldable pub container_or_dns : AppConfig → EndpointConfig → Text
  container_or_dns app ep = host_or_dns ep (
      out.container_ip (codes "simpledeploy-" ++ app.name) ep.service (codes "simpledeploy-public"))

  unfoldable pub mapping_of : Text → List PortMapping → Option PortMapping
  mapping_of port [] = none
  mapping_of port (pm ∷ pms) =
      let rest = mapping_of port pms in if pm.container == port then some pm else rest

  unfoldable pub first_host : List PortMapping → Option Text
  first_host [] = none
  first_host (pm ∷ pms) =
      let rest = first_host pms in if not (pm.host == []) then some pm.host else rest

  abbrev pub host_upstream : Option Text → Option Text
  host_upstream none = none
  host_upstream (some host) = some (upstream_host ++ codes ":" ++ host)

  abbrev pub mapped_upstream :
      AppConfig → EndpointConfig → List PortMapping → Option PortMapping → Option Text
  mapped_upstream app ep ports (some pm) = some (
      if not (pm.host == [])
      then upstream_host ++ codes ":" ++ pm.host
      else container_or_dns app ep)
  mapped_upstream app ep ports none =
      if not (ep.port == [])
      then some (container_or_dns app ep)
      else host_upstream (first_host ports)

  -- `none` is the error.
  unfoldable pub service_upstream : AppConfig → EndpointConfig → List Service → Option Text
  unfolding mapping_of first_host container_or_dns upstream_host
  service_upstream app ep [] = if not (ep.port == []) then some (container_or_dns app ep) else none
  service_upstream app ep (svc ∷ svcs) =
      let rest = service_upstream app ep svcs in
      if not (svc.name == ep.service)
      then rest
      else mapped_upstream app ep svc.ports (mapping_of ep.port svc.ports)

  unfoldable pub resolve_endpoint_upstream : AppConfig → EndpointConfig → Option Text
  unfolding service_upstream
  resolve_endpoint_upstream app ep = service_upstream app ep app.services

  abbrev pub or_minute : Option ℕ → ℕ
  or_minute none = default_window
  or_minute (some d) = d

  unfoldable pub limit_of : RateLimitLabels → Option RateLimitConfig
  limit_of l =
      if not (l.requests == []) && ltb 0 (out.atoi l.requests)
      then some (record {
        requests = out.atoi l.requests;
        window = or_minute (out.parse_duration l.window);
        burst = out.atoi l.burst;
        by = if l.by == [] then codes "ip" else l.by;
      })
      else none

  abbrev parses {ℓ} : {A : Type ℓ} → Option A → Bool
  parses none = false
  parses (some a) = true

  unfoldable pub keep_ranges : List Text → List Text
  keep_ranges [] = []
  keep_ranges (e ∷ es) =
      let entry = trim_space e in
      let rest = keep_ranges es in
      if not (entry == []) && (parses (out.net.parse_ip entry) || parses (out.net.parse_cidr entry))
      then entry ∷ rest
      else rest

  unfoldable pub allowed_of : Text → List Text
  unfolding keep_ranges
  allowed_of access_allow = if access_allow == [] then [] else keep_ranges (split b',' access_allow)

  abbrev pub route_of : AppConfig → EndpointConfig → Text → Text → Route
  route_of app ep upstream tls = record {
    app_slug = app.name;
    app_id = 0;
    domain = ep.domain;
    upstream = upstream;
    tls = tls;
    cert_dir = cert_dir_of app.compose_path;
    rate_limit = limit_of app.rate_limit;
    allowed_ips = allowed_of app.access_allow;
    protocol = protocol_of ep;
    path = ep.path;
  }

  -- The upstream of an endpoint that is served; `none` is one that is skipped.
  unfoldable pub upstream_of : AppConfig → EndpointConfig → List Text → Option Text
  unfolding resolve_endpoint_upstream
  upstream_of app ep seen =
      if is_routable ep && not (any (λ k. k == key_of ep) seen)
      then resolve_endpoint_upstream app ep
      else none

  -- The routes from an endpoint on: without it, or with it in front of the others.
  abbrev pub choose_route : Option Text → (Text → Route) → List Route → List Route → List Route
  choose_route none route skipped others = skipped
  choose_route (some upstream) route skipped others = route upstream ∷ others

  -- The loop over the endpoints; `seen` holds the keys of `seenMatch`.
  unfoldable pub resolve_loop :
      AppConfig → List EndpointConfig → List Text → Dict Text Text → List Route
  unfolding limit_of allowed_of cert_dir_of
  resolve_loop app [] seen domain_tls = []
  resolve_loop app (ep ∷ eps) seen domain_tls =
      let tls = tls_of ep (lookup ep.domain domain_tls) in
      let skipped = resolve_loop app eps seen domain_tls in
      let others =
        resolve_loop app eps (key_of ep ∷ seen)
          (keep_tls ep.domain tls (lookup ep.domain domain_tls) domain_tls) in
      choose_route (upstream_of app ep seen) (λ upstream. route_of app ep upstream tls) skipped
        others

  unfoldable pub resolve_routes : AppConfig → List Route
  unfolding resolve_loop
  resolve_routes app = resolve_loop app app.endpoints [] []
