-- ===== src/Proxy/Tests.antt =====
-- internal/proxy at concrete inputs.
use simpledeploy.Prelude.{
  ℕ, ◌+◌, ◌*◌, ◌≤◌, ◌≡◌, refl, arith, true, false, none, some, List, [], ◌∷◌, ◌==◌, Bool-cases,
  nat_eq, inl, inr,
}
use simpledeploy.Prelude.Text.{
  split, Text, text_eq, text_beq_iff, text_beq, codes, contains_byte, count_byte,
}
use simpledeploy.Prelude.Dict.{Dict, lookup, insert}
use simpledeploy.Proxy.Host.{
  best_wildcard, is_candidate, host_matches, labels_match, find_host, read_key, domain_less,
}
use simpledeploy.Proxy.Host.Served.{first_match, listed, find_host-first_match}
use simpledeploy.Proxy.RateLimit.{RlBucket, DomainLimiter, refill, spend, use_bucket}
use simpledeploy.Proxy.RateLimit.Rate.{passed, steady-le}
use simpledeploy.Proxy.RateLimit.Present.{Request}
use simpledeploy.Proxy.Route.{Route}
use simpledeploy.Proxy.Claim.{claim_domains}
use simpledeploy.Proxy.Claim.Lowest.{has_route}
use simpledeploy.Proxy.Claim.Owner.{
  owner, owner-incumbent, claim_domains-has_route, claim_domains_owner,
}

abbrev lower_case : Text → Text
lower_case s = s

abbrev route : Text → ℕ → Text → Route
route slug id domain = record {
  app_slug = slug;
  app_id = id;
  domain = domain;
  upstream = codes "localhost:80";
  tls = codes "auto";
  cert_dir = [];
  rate_limit = none;
  allowed_ips = [];
  protocol = codes "http";
  path = [];
}

-- Two apps on one domain.
abbrev routes : List Route
routes = route (codes "shop") 7 (codes "a.io") ∷ route (codes "blog") 3 (codes "a.io") ∷ []

abbrev owners : Dict Text Text
owners = (codes "a.io", codes "shop") ∷ []

owner-incumbent_example : owner lower_case routes owners (codes "a.io") ≡ some (codes "shop")
unfolding lookup has_route text_beq
owner-incumbent_example =
    owner-incumbent lower_case routes owners (codes "a.io") (codes "shop") refl refl

claim_domains-has_route_example :
    (o : Text) × (has_route lower_case (codes "a.io") o (claim_domains lower_case routes owners).0
      ≡ true)
unfolding has_route text_beq
claim_domains-has_route_example =
    claim_domains-has_route lower_case routes owners (codes "a.io") (codes "blog") refl

claim_domains_owner_example :
    lookup (codes "a.io") (claim_domains lower_case routes owners).1 ≡ some (codes "shop")
unfolding has_route claim_domains lookup insert text_beq
claim_domains_owner_example =
    claim_domains_owner lower_case routes owners (codes "a.io") (codes "shop") refl

abbrev bucket : Text → ℕ → ℕ → RlBucket
bucket key tokens at = record {
  key = key;
  tokens = tokens;
  spare = 1;
  over = false;
  last_reset = at;
  last_access = at;
}

-- Two requests in ten units of time, one more in a burst.
abbrev limiter : List RlBucket → DomainLimiter
limiter bs = record {
  requests = 2;
  window = 10;
  burst = 1;
  by = codes "ip";
  max_buckets = 3;
  lru = bs;
}

abbrev client : Text
client = codes "10.0.0.1"

abbrev other_client : Text
other_client = codes "10.0.0.2"

steady-le_example :
    passed (limiter []) (bucket client 2 0) (1 ∷ 2 ∷ 3 ∷ 4 ∷ 12 ∷ []) ≤ 2 + 1 + 1 * 2
unfolding use_bucket refill spend
steady-le_example =
    steady-le (limiter []) 1 (1 ∷ 2 ∷ 3 ∷ 4 ∷ 12 ∷ []) (bucket client 2 0)
      (omega arith, (omega arith, (omega arith, (omega arith, (omega arith, tt)))))
      (
        inl (omega arith),
        (
          inl (omega arith),
          (inl (omega arith), (inl (omega arith), (inr (refl, omega arith), tt))),
        ),
      )

abbrev asks : List Request
asks =
    record { key = client; at = 1 }
    ∷ record { key = other_client; at = 2 }
    ∷ record { key = client; at = 3 }
    ∷ record { key = client; at = 4 }
    ∷ record { key = client; at = 5 }
    ∷ []

abbrev roomy : DomainLimiter
roomy = record (limiter (bucket client 2 0 ∷ [])) { max_buckets = 9 }

abbrev wild : Text
wild = codes "*.a.io"

abbrev exact : Text
exact = codes "b.io"

abbrev upstreams : Dict Text ℕ
upstreams = (wild, 1) ∷ (exact, 2) ∷ []

abbrev shuffled : Dict Text ℕ
shuffled = (exact, 2) ∷ (wild, 1) ∷ []

shuffled_same : (k : Text) → lookup k upstreams ≡ lookup k shuffled
unfolding lookup text_beq
shuffled_same k = elim (Bool-cases (wild == k)) [
  | inl e ↦ rw (← (text_beq_iff wild k).0 e) refl
  | inr e ↦ elim (Bool-cases (exact == k)) [ inl f ↦ rw (e, f) refl | inr f ↦ rw (e, f) refl ]
]

upstream_listed :
    (d : Text) → listed d (exact ∷ wild ∷ []) ≡ true → (v : ℕ) × (lookup d upstreams ≡ some v)
unfolding listed lookup
upstream_listed d h = elim (Bool-cases (wild == d)) [
  | inl e ↦ (1, ground arith)
  | inr e ↦ (2, ground arith)
]

listed_upstream :
    (d : Text) (v : ℕ) → lookup d upstreams ≡ some v → listed d (exact ∷ wild ∷ []) ≡ true
unfolding listed lookup
listed_upstream d v h = ground arith

find_host-first_match_example :
    find_host upstreams (codes "x.a.io")
    ≡ read_key upstreams (first_match (codes "x.a.io") (exact ∷ wild ∷ []))
unfolding contains_byte domain_less count_byte
find_host-first_match_example =
    find_host-first_match upstreams (exact ∷ wild ∷ []) (codes "x.a.io") refl ((refl, tt), (tt, tt))
      (upstream_listed, listed_upstream)

-- A host whose own route has no entry is answered by the entry of a wildcard, which does not serve it.
wildcard_answers :
    (find_host {V = ℕ} ((wild, 1) ∷ []) (codes "x.a.io") ≡ some 1)
    × (first_match (codes "x.a.io") (codes "x.a.io" ∷ wild ∷ []) ≡ some (codes "x.a.io"))
unfolding find_host lookup text_beq best_wildcard is_candidate contains_byte host_matches split
    labels_match first_match
wildcard_answers = (refl, refl)
