-- ===== src/Proxy/Rules.antt =====
-- The rules of the domains: the registries of internal/proxy/ratelimit.go and ipaccess.go, and
-- registerRouteRules of internal/proxy/proxy.go. A limiter stands in the registry as a value, so
-- that a step on the registry is one on the limiter that the Go map points to. A Go map that is
-- ranged over is the list of its entries, in the order of the range.
pub mod Lookup
use simpledeploy.Prelude.{
  Bool, true, false, ◌&&◌, Option, none, some, List, [], ◌∷◌, ℕ, if◌then◌else◌, ◌==◌, nat_eq,
}
use simpledeploy.Prelude.Text.{Text, text_eq}
use simpledeploy.Prelude.Dict.{Dict, lookup, insert, erase}
use simpledeploy.Net.{Net}
use simpledeploy.Proxy.RateLimit.{RateLimitConfig, DomainLimiter, new_domain_limiter}
use simpledeploy.Proxy.Host.{normalize_domain, lookup_host}
use simpledeploy.Proxy.IpAccess.{ParsedAllowlist, parse_allowlist, allows}
use simpledeploy.Proxy.Route.{Route}

unfoldable pub same_config : DomainLimiter → RateLimitConfig → Bool
same_config d cfg =
    d.requests == cfg.requests && d.window == cfg.window && d.burst == cfg.burst && d.by == cfg.by

-- The limiter that stands on while its configuration does not change.
abbrev pub next_limiter : Option DomainLimiter → RateLimitConfig → DomainLimiter
next_limiter none cfg = new_domain_limiter cfg
next_limiter (some cur) cfg = if same_config cur cfg then cur else new_domain_limiter cfg

abbrev pub Limiters : Type 0
Limiters = Dict Text DomainLimiter

-- Keep what is there; else set it, if there is something to set.
abbrev pub define_first {ℓ} : {V : Type ℓ} → Text → Option V → Option V → Dict Text V → Dict Text V
define_first key (some old) new m = m
define_first key none none m = m
define_first key none (some v) m = insert key v m

-- A nil list is an empty one.
abbrev pub non_nil : List Text → Option (List Text)
non_nil [] = none
non_nil (e ∷ es) = some (e ∷ es)

module _ (net : Net) where
  unfoldable pub set_limiter : Text → RateLimitConfig → Limiters → Limiters
  set_limiter domain cfg reg = insert (normalize_domain net domain) (new_domain_limiter cfg) reg

  unfoldable pub remove_limiter : Text → Limiters → Limiters
  remove_limiter domain reg = erase (normalize_domain net domain) reg

  -- The loop of `Replace`, whose map so far is the last argument.
  unfoldable pub replace_loop : Limiters → Dict Text RateLimitConfig → Limiters → Limiters
  replace_loop cur [] next = next
  replace_loop cur ((domain, cfg) ∷ cfgs) next =
      let key = normalize_domain net domain in
      replace_loop cur cfgs (insert key (next_limiter (lookup key cur) cfg) next)

  unfoldable pub replace_limiters : Limiters → Dict Text RateLimitConfig → Limiters
  unfolding replace_loop
  replace_limiters cur cfgs = replace_loop cur cfgs []

  unfoldable pub set_allowlist :
      Text → List Text → Dict Text (ParsedAllowlist net) → Dict Text (ParsedAllowlist net)
  set_allowlist domain entries reg =
      insert (normalize_domain net domain) (parse_allowlist net entries) reg

  unfoldable pub remove_allowlist :
      Text → Dict Text (ParsedAllowlist net) → Dict Text (ParsedAllowlist net)
  remove_allowlist domain reg = erase (normalize_domain net domain) reg

  unfoldable pub replace_rules :
      Dict Text (List Text) → Dict Text (ParsedAllowlist net) → Dict Text (ParsedAllowlist net)
  replace_rules [] next = next
  replace_rules ((domain, entries) ∷ rules) next =
      replace_rules rules (insert (normalize_domain net domain) (parse_allowlist net entries) next)

  abbrev allows_rule : Text → Option (ParsedAllowlist net) → Bool
  allows_rule remote_addr none = true
  allows_rule remote_addr (some al) = allows net al remote_addr

  -- By the host of the request, and by the domain of the route.
  unfoldable pub allowed : Dict Text (ParsedAllowlist net) → Text → Text → Bool
  unfolding lookup_host
  allowed reg host remote_addr = allows_rule remote_addr (lookup_host net reg host)

  unfoldable pub allowed_for : Dict Text (ParsedAllowlist net) → Text → Text → Bool
  allowed_for reg domain remote_addr =
      allows_rule remote_addr (lookup (normalize_domain net domain) reg)

  -- The loop of `registerRouteRules`, with both maps.
  unfoldable pub collect_limits : List Route → Dict Text RateLimitConfig → Dict Text RateLimitConfig
  collect_limits [] m = m
  collect_limits (r ∷ rs) m =
      let key = normalize_domain net r.domain in
      collect_limits rs (define_first key (lookup key m) r.rate_limit m)

  unfoldable pub collect_allow : List Route → Dict Text (List Text) → Dict Text (List Text)
  collect_allow [] m = m
  collect_allow (r ∷ rs) m =
      let key = normalize_domain net r.domain in
      collect_allow rs (define_first key (lookup key m) (non_nil r.allowed_ips) m)

  unfoldable pub register_route_rules :
      List Route → Limiters → Limiters × Dict Text (ParsedAllowlist net)
  unfolding collect_limits collect_allow replace_limiters replace_rules
  register_route_rules rs cur =
      (replace_limiters cur (collect_limits rs []), replace_rules (collect_allow rs []) [])
