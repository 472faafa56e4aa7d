-- ===== src/Proxy/Resolve/Keeps.antt =====
-- The routes of an app do not shadow each other, and a domain has one tls mode.
use simpledeploy.Prelude.{
  false, ◌≡◌, ◌⊎◌, ◌∙◌, sym, inl, inr, refl, arith, Option, none, some, List, [], ◌∷◌, ◌==◌, any,
  All, Bool-cases, Option-cases, nat_eq,
}
use simpledeploy.Prelude.Text.{Text, text_eq, text_beq_iff}
use simpledeploy.Prelude.Dict.{Dict, lookup, lookup-insert}
use simpledeploy.Compose.Endpoint.{EndpointConfig, effective_tls, endpoint_match_key}
use simpledeploy.Proxy.Route.{Route}
use simpledeploy.Proxy.Resolve.{
  AppConfig, Outside, tls_or_auto, tls_of, keep_tls, route_of, key_of, is_routable, upstream_of,
  resolve_loop, resolve_routes,
}

-- The key of the Caddy matcher of a route.
unfoldable pub route_key : Route → Text
route_key r = endpoint_match_key (record {
  domain = r.domain;
  port = [];
  tls = [];
  service = [];
  protocol = r.protocol;
  path = r.path;
  index = 0;
})

-- Two routes have two matchers, and on one domain they have one tls mode.
abbrev pub RoutesAgree : Route → Route → Type 0
RoutesAgree a b =
    ((route_key a == route_key b) ≡ false)
    × (((a.domain == b.domain) ≡ false) ⊎ (effective_tls b.tls ≡ effective_tls a.tls))

abbrev pub AllAgree : List Route → Type 0
AllAgree [] = Unit
AllAgree (r ∷ rs) = All (RoutesAgree r) rs × AllAgree rs

abbrev ModeFits : Option Text → Route → Type 0
ModeFits none r = Unit
ModeFits (some first) r = effective_tls r.tls ≡ effective_tls first

abbrev RouteFits : List Text → Dict Text Text → Route → Type 0
RouteFits seen domain_tls r =
    (any (λ k. k == route_key r) seen ≡ false) × ModeFits (lookup r.domain domain_tls) r

mode_back :
    (domain tls : Text) (domain_tls : Dict Text Text) (held : Option Text) (a r : Route)
    → a.domain ≡ domain
    → a.tls ≡ tls
    → lookup domain domain_tls ≡ held
    → ModeFits held a
    → ModeFits (lookup r.domain (keep_tls domain tls held domain_tls)) r
    → ModeFits (lookup r.domain domain_tls) r
      × (((a.domain == r.domain) ≡ false) ⊎ (effective_tls r.tls ≡ effective_tls a.tls))
mode_back domain tls domain_tls none a r ad at_tls at_a fits after =
    elim (Bool-cases (domain == r.domain)) [
      | inl same ↦
          let at_r = (text_beq_iff domain r.domain).0 same in
          (rw (← at_r, at_a) tt, inr (rw at_tls (rw (lookup-insert, same) at after)))
      | inr other ↦ (rw (lookup-insert, other) at after, inl (rw ad other))
    ]
mode_back domain tls domain_tls (some first) a r ad at_tls at_a fits after =
    elim (Bool-cases (domain == r.domain)) [
      | inl same ↦
          let at_r = (text_beq_iff domain r.domain).0 same in
          let found : lookup r.domain domain_tls ≡ some first = rw (← at_r) at_a in
          let as_first : effective_tls r.tls ≡ effective_tls first = rw found at after in
          (after, inr (as_first ∙ sym fits))
      | inr other ↦ (after, inl (rw ad other))
    ]

tls-fits :
    (ep : EndpointConfig) (held : Option Text) (r : Route)
    → r.tls ≡ tls_of ep held
    → ModeFits held r
tls-fits ep none r e = tt
tls-fits ep (some first) r e =
    elim (Bool-cases (effective_tls first == effective_tls (tls_or_auto ep))) [
      | inl same ↦
          rw (e, same)
            (sym ((text_beq_iff (effective_tls first) (effective_tls (tls_or_auto ep))).0 same))
      | inr other ↦ rw (e, other) refl
    ]

module _ (out : Outside) (app : AppConfig) where
  key-route_of :
      (ep : EndpointConfig) (upstream tls : Text)
      → route_key (route_of out app ep upstream tls) ≡ key_of ep
  unfolding route_key endpoint_match_key
  key-route_of ep upstream tls = refl

  not_seen :
      (ep : EndpointConfig) (seen : List Text) (upstream : Text)
      → upstream_of out app ep seen ≡ some upstream
      → any (λ k. k == key_of ep) seen ≡ false
  unfolding upstream_of
  not_seen ep seen upstream e = elim (Bool-cases (any (λ k. k == key_of ep) seen)) [
    | inl there ↦ elim (Bool-cases (is_routable ep)) [
      | inl ok ↦ let no = rw (ok, there) at e in cc
      | inr bad ↦ let no = rw bad at e in cc
    ]
    | inr fresh ↦ fresh
  ]

  All-mode_back :
      (ep : EndpointConfig) (upstream : Text) (seen : List Text) (domain_tls : Dict Text Text)
      (rs : List Route)
      → All
          (RouteFits (key_of ep ∷ seen) (
            keep_tls ep.domain
              (tls_of ep (lookup ep.domain domain_tls))
              (lookup ep.domain domain_tls)
              domain_tls))
          rs
      → All (RouteFits seen domain_tls) rs
        × All
            (RoutesAgree (route_of out app ep upstream (tls_of ep (lookup ep.domain domain_tls))))
            rs
  All-mode_back ep upstream seen domain_tls [] h = (tt, tt)
  All-mode_back ep upstream seen domain_tls (r ∷ rs) ((fresh, mode), h) =
      let held = lookup ep.domain domain_tls in
      let tls = tls_of ep held in
      let a = route_of out app ep upstream tls in
      let (before, agree) =
        mode_back ep.domain tls domain_tls held a r refl refl refl (tls-fits ep held a refl) mode in
      let (ones, twos) = All-mode_back ep upstream seen domain_tls rs h in
      let same_key = key-route_of ep upstream tls in
      (((ground arith, before), ones), ((rw same_key (ground arith), agree), twos))

  loop-AllAgree :
      (eps : List EndpointConfig) (seen : List Text) (domain_tls : Dict Text Text)
      → All (RouteFits seen domain_tls) (resolve_loop out app eps seen domain_tls)
        × AllAgree (resolve_loop out app eps seen domain_tls)
  unfolding resolve_loop
  loop-AllAgree [] seen domain_tls = (tt, tt)
  loop-AllAgree (ep ∷ eps) seen domain_tls = elim (Option-cases (upstream_of out app ep seen)) [
    | inl skipped ↦ rw skipped (loop-AllAgree eps seen domain_tls)
    | inr (upstream, served) ↦
        let held = lookup ep.domain domain_tls in
        let tls = tls_of ep held in
        let (fits, agree) =
          loop-AllAgree eps (key_of ep ∷ seen) (keep_tls ep.domain tls held domain_tls) in
        let rest =
          resolve_loop out app eps (key_of ep ∷ seen) (keep_tls ep.domain tls held domain_tls) in
        let (back, with_route) = All-mode_back ep upstream seen domain_tls rest fits in
        let own_key : any (λ k. k == route_key (route_of out app ep upstream tls)) seen ≡ false =
          rw (key-route_of ep upstream tls) (not_seen ep seen upstream served) in
        rw served (
          ((own_key, tls-fits ep held (route_of out app ep upstream tls) refl), back),
          (with_route, agree),
        )
  ]

  -- Any two routes of one app have different matchers, and on one domain they have one tls mode,
  -- whatever endpoints the app has.
  pub resolve_routes-AllAgree : AllAgree (resolve_routes out app)
  unfolding resolve_routes
  resolve_routes-AllAgree = (loop-AllAgree app.endpoints [] []).1
