-- ===== src/Proxy/RuleTests.antt =====
-- The rules of internal/proxy and SetRoutes at concrete inputs.
use simpledeploy.Prelude.{
  ◌⊎◌, ◌≡◌, refl, Bool, true, false, none, some, List, [], ◌∷◌, if◌then◌else◌, ◌==◌,
}
use simpledeploy.Prelude.Text.{
  Text, text_eq, text_beq, codes, trim_space, to_lower, trim_prefix, trim_last,
}
use simpledeploy.Prelude.Dict.{lookup, insert}
use simpledeploy.Net.{Net}
use simpledeploy.Proxy.Host.{normalize_domain}
use simpledeploy.Proxy.RateLimit.{RateLimitConfig, DomainLimiter}
use simpledeploy.Proxy.Route.{Route}
use simpledeploy.Proxy.IpAccess.{parse_allowlist}
use simpledeploy.Proxy.Rules.{Limiters, collect_allow, replace_rules}
use simpledeploy.Proxy.Claim.{claim_domains}
use simpledeploy.Proxy.Handler.{HttpRequest}
use simpledeploy.Prelude.Sort.{sort_stable, insert_sorted}
use simpledeploy.Proxy.SetRoutes.{CaddyProxy, valid_domain, Outside, apply_routes, set_routes}
use simpledeploy.Proxy.SetRoutes.Rollback.{
  SameRules, SeenBy, Loaded, set_routes-atomic, set_routes-InStep,
}

-- An address is its text, and no range is read.
abbrev no_port : Net
no_port = record {
  Ip = Text;
  IpNet = Text;
  split_host_port = λ t. some t;
  parse_ip = λ t. if t == [] then none else some t;
  parse_cidr = λ t. none;
  net_contains = λ n ip. false;
  ip_equal = λ a b. a == b;
}

abbrev office : List Text
office = codes "10.0.0.1" ∷ [] ∷ []

abbrev limit : RateLimitConfig
limit = record { requests = 2; window = 10; burst = 1; by = codes "ip" }

abbrev shop : List Route
shop =
    record {
      app_slug = codes "shop";
      app_id = 1;
      domain = codes "A.io";
      upstream = codes "localhost:80";
      tls = codes "auto";
      cert_dir = [];
      rate_limit = some limit;
      allowed_ips = office;
      protocol = codes "http";
      path = [];
    }
    ∷ []

abbrev used : DomainLimiter
used = record {
  requests = 2;
  window = 10;
  burst = 1;
  by = codes "ip";
  max_buckets = 10000;
  lru =
      record {
        key = codes "x";
        tokens = 0;
        spare = 0;
        over = true;
        last_reset = 3;
        last_access = 4;
      }
      ∷ [];
}

abbrev outside : Bool → Outside
outside ok = record {
  build = λ rs. some (codes "json");
  cert_fingerprint = λ rs. codes "12";
  load = λ config. ok;
}

abbrev fresh : CaddyProxy no_port
fresh = record { routes = []; owners = []; last_key = none; limits = []; allow = [] }

-- Caddy refuses the configuration.
set_routes-atomic_example :
    SameRules no_port (outside false) (set_routes no_port (outside false) shop fresh).0 fresh
unfolding set_routes
set_routes-atomic_example = set_routes-atomic no_port (outside false) shop fresh

set_routes-InStep_example :
    SeenBy no_port (outside true ∷ []) (set_routes no_port (outside true) shop fresh).0
    × (((set_routes no_port (outside true) shop fresh).1 ≡ false)
        ⊎ Loaded no_port
            (outside true)
            (set_routes no_port (outside true) shop fresh).0.routes
            (set_routes no_port (outside true) shop fresh).0.last_key)
set_routes-InStep_example = set_routes-InStep no_port (outside true) [] shop fresh refl

abbrev claimed_by : Text → Text → Text → Route
claimed_by slug domain ip = record {
  app_slug = slug;
  app_id = 1;
  domain = domain;
  upstream = codes "localhost:80";
  tls = codes "auto";
  cert_dir = [];
  rate_limit = none;
  allowed_ips = ip ∷ [];
  protocol = codes "http";
  path = [];
}

abbrev two_apps : List Route
two_apps =
    claimed_by (codes "shop") (codes "a.io") (codes "10.0.0.1")
    ∷ claimed_by (codes "blog") (codes "a.io..") (codes "10.9.9.9")
    ∷ []

-- The second domain is a domain of its own to the owners, and the first one to the registry.
kept_both : (apply_routes no_port two_apps fresh).routes ≡ two_apps
unfolding apply_routes valid_domain claim_domains normalize_domain lookup insert text_beq trim_space
    to_lower trim_prefix trim_last sort_stable insert_sorted
kept_both = refl

allowlist_taken :
    lookup (codes "a.io") (apply_routes no_port two_apps fresh).allow
    ≡ some (record { ips = codes "10.9.9.9" ∷ []; nets = [] })
unfolding apply_routes valid_domain claim_domains normalize_domain lookup insert text_beq trim_space
    to_lower trim_prefix trim_last sort_stable insert_sorted parse_allowlist collect_allow
    replace_rules
allowlist_taken = refl

no_leading_star : valid_domain (codes "*.example.com") ≡ false
unfolding valid_domain
no_leading_star = refl

abbrev get : HttpRequest
get = record {
  remote_addr = codes "10.0.0.1";
  host = codes "a.io";
  path = codes "/";
  header = λ name. [];
}

abbrev limiters : Limiters
limiters = (codes "a.io", used) ∷ (codes "b.io", used) ∷ []
