-- ===== src/Proxy/Match/Specific.antt =====
-- Routes in the order of orderRoutes: what Caddy needs of it.
use simpledeploy.Prelude.{
  ℕ, ◌≤◌, length, nat_eq, Bool, true, false, not, ◌≡◌, List, [], ◌∷◌, if◌then◌else◌, ◌==◌, All,
}
use simpledeploy.Prelude.Text.{Text, text_eq}
use simpledeploy.Net.{Net}
use simpledeploy.Compose.Endpoint.{protocol_grpc}
use simpledeploy.Proxy.Host.{normalize_domain, domain_less}
use simpledeploy.Proxy.Route.{Route}

abbrev rank_by : Bool → Bool → ℕ
rank_by grpc empty = if grpc then 0 else if not empty then 1 else 2

module _ (net : Net) where
  -- A route may be tried before another: on one domain grpc comes before the others, and of two that
  -- are both grpc or both not the longer path comes first; on two domains the order is domainLess.
  abbrev pub InOrderAt : Bool → Route → Route → Type 0
  InOrderAt true a b =
      (b.protocol ≡ protocol_grpc → a.protocol ≡ protocol_grpc)
      × ((a.protocol == protocol_grpc) ≡ (b.protocol == protocol_grpc)
          → length b.path ≤ length a.path)
  InOrderAt false a b =
      domain_less (normalize_domain net b.domain) (normalize_domain net a.domain) ≡ false

  abbrev pub InOrder : Route → Route → Type 0
  InOrder a b = InOrderAt (normalize_domain net b.domain == normalize_domain net a.domain) a b

  abbrev pub AllInOrder : List Route → Type 0
  AllInOrder [] = Unit
  AllInOrder (r ∷ rs) = All (InOrder r) rs × AllInOrder rs
