-- ===== src/Proxy/Match.antt =====
-- internal/proxy/match.go: the order in which Caddy tries the routes.
pub mod Groups
pub mod Sorted
pub mod Ordered
pub mod Specific
use simpledeploy.Prelude.{
  ℕ, Bool, true, false, not, Option, none, some, List, [], ◌∷◌, ◌++◌, ltb, if◌then◌else◌, ◌==◌,
  length, nat_eq,
}
use simpledeploy.Prelude.Text.{Text, text_eq, text_lt}
use simpledeploy.Prelude.Dict.{Dict, lookup, insert}
use simpledeploy.Prelude.Sort.{sort_stable}
use simpledeploy.Net.{Net}
use simpledeploy.Compose.Endpoint.{protocol_grpc}
use simpledeploy.Proxy.Host.{normalize_domain, domain_less}
use simpledeploy.Proxy.Route.{Route}

abbrev pub route_rank : Route → ℕ
route_rank r = if r.protocol == protocol_grpc then 0 else if not (r.path == []) then 1 else 2

-- The order inside a domain.
unfoldable pub route_less : Route → Route → Bool
route_less a b =
    if not (route_rank a == route_rank b)
    then ltb (route_rank a) (route_rank b)
    else if not (length a.path == length b.path)
    then ltb (length b.path) (length a.path)
    else text_lt a.path b.path

abbrev pub held : Option (List Route) → List Route
held none = []
held (some g) = g

-- A domain at its first route.
abbrev pub add_domain : Text → Option (List Route) → List Text → List Text
add_domain key none domains = domains ++ key ∷ []
add_domain key (some g) domains = domains

-- The routes of each domain in `groups`, which `domains` lists.
unfoldable pub emit : Dict Text (List Route) → List Text → List Route
emit groups [] = []
emit groups (d ∷ ds) = sort_stable route_less (held (lookup d groups)) ++ emit groups ds

module _ (net : Net) where
  unfoldable pub group_loop :
      List Route → Dict Text (List Route) → List Text → Dict Text (List Route) × List Text
  group_loop [] groups domains = (groups, domains)
  group_loop (r ∷ rs) groups domains =
      let key = normalize_domain net r.domain in
      let found = lookup key groups in
      group_loop rs (insert key (held found ++ r ∷ []) groups) (add_domain key found domains)

  unfoldable pub order_routes : List Route → List Route
  unfolding group_loop emit
  order_routes rs =
      let (groups, domains) = group_loop rs [] [] in emit groups (sort_stable domain_less domains)
