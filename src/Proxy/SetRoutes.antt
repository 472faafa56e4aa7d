-- ===== src/Proxy/SetRoutes.antt =====
-- SetRoutes, ForceReload, Stop and reloadLocked of internal/proxy/proxy.go. The mutexes make each of
-- the calls one step. The content of the Caddy configuration is a parameter, and so are the
-- fingerprint of the certificate files and `caddy.Load`.
pub mod Rollback
use simpledeploy.Prelude.{
  ℕ, Bool, true, false, not, ◌&&◌, ◌||◌, Option, none, some, List, [], ◌∷◌, ◌++◌, leb,
  if◌then◌else◌, ◌==◌, nat_eq,
}
use simpledeploy.Prelude.Text.{Text, text_eq}
use simpledeploy.Prelude.Dict.{Dict}
use simpledeploy.Net.{Net}
use simpledeploy.Proxy.Host.{normalize_domain}
use simpledeploy.Proxy.IpAccess.{ParsedAllowlist}
use simpledeploy.Proxy.Route.{Route}
use simpledeploy.Proxy.Claim.{claim_domains}
use simpledeploy.Proxy.Rules.{Limiters, register_route_rules}

abbrev pub is_alnum : ℕ → Bool
is_alnum c = (leb b'a' c && leb c b'z') || (leb b'A' c && leb c b'Z') || (leb b'0' c && leb c b'9')

abbrev is_domain_byte : ℕ → Bool
is_domain_byte c = is_alnum c || c == b'.' || c == b'*' || c == b'-'

unfoldable pub domain_bytes : Text → Bool
domain_bytes [] = true
domain_bytes (c ∷ s) = is_domain_byte c && domain_bytes s

-- `^[a-zA-Z0-9][a-zA-Z0-9.*-]*$`
unfoldable pub valid_domain : Text → Bool
unfolding domain_bytes
valid_domain [] = false
valid_domain (c ∷ s) = is_alnum c && domain_bytes s

unfoldable pub keep_valid : List Route → List Route
unfolding valid_domain
keep_valid [] = []
keep_valid (r ∷ rs) = let rest = keep_valid rs in if valid_domain r.domain then r ∷ rest else rest

-- The fields that change, with the two registries of the package.
pub record CaddyProxy (net : Net) : Type 0 where
  pub routes : List Route
  pub owners : Dict Text Text
  pub last_key : Option Text
  pub limits : Limiters
  pub allow : Dict Text (ParsedAllowlist net)

abbrev pub is_key : Text → Option Text → Bool
is_key key none = false
is_key key (some last) = last == key

-- What Caddy and the disk do in one call: the JSON of the routes, `none` if it cannot be made; the
-- fingerprint of their certificate files; and whether the load succeeds.
pub record Outside : Type 0 where
  pub build : List Route → Option Text
  pub cert_fingerprint : List Route → Text
  pub load : Text → Bool

module _ (net : Net) where
  -- The new routes, owners and rules, before the load.
  unfoldable pub apply_routes : List Route → CaddyProxy net → CaddyProxy net
  unfolding keep_valid register_route_rules
  apply_routes routes c =
      let (kept, owners) = claim_domains (normalize_domain net) (keep_valid routes) c.owners in
      let (limits, allow) = register_route_rules net kept c.limits in
      record c { routes = kept; owners = owners; limits = limits; allow = allow }

  abbrev pub restore_failed : CaddyProxy net → CaddyProxy net × Bool → CaddyProxy net × Bool
  restore_failed c (c', true) = (c', true)
  restore_failed c (c', false) = (
    record c' { routes = c.routes; owners = c.owners; limits = c.limits; allow = c.allow },
    false,
  )

  -- `Stop` before it stops Caddy.
  unfoldable pub stop : CaddyProxy net → CaddyProxy net
  stop c = record c { last_key = none }

module _ (net : Net) (out : Outside) where
  abbrev pub load_config : Bool → CaddyProxy net → Text → CaddyProxy net × Bool
  load_config force c config =
      let key = config ++ out.cert_fingerprint c.routes in
      if not force && is_key key c.last_key
      then (c, true)
      else if out.load config
      then (record c { last_key = some key }, true)
      else (record c { last_key = none }, false)

  abbrev pub build_config : Bool → CaddyProxy net → Option Text → CaddyProxy net × Bool
  build_config force c none = (c, false)
  build_config force c (some config) = load_config force c config

  unfoldable pub reload_locked : Bool → CaddyProxy net → CaddyProxy net × Bool
  reload_locked force c = build_config force c (out.build c.routes)

  unfoldable pub force_reload : CaddyProxy net → CaddyProxy net × Bool
  unfolding reload_locked
  force_reload c = reload_locked true c

  unfoldable pub set_routes : List Route → CaddyProxy net → CaddyProxy net × Bool
  unfolding apply_routes reload_locked
  set_routes routes c = restore_failed net c (reload_locked false (apply_routes net routes c))
