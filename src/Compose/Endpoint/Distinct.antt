-- ===== src/Compose/Endpoint/Distinct.antt =====
-- What holds of endpoints in which no violation is found.
use simpledeploy.Prelude.{
  ℕ, true, false, not, ◌&&◌, ◌||◌, ◌≡◌, ◌⊎◌, ◌∙◌, sym, inl, inr, refl, arith, Option, none, some,
  List, [], ◌∷◌, ◌==◌, All, Bool-cases,
}
use simpledeploy.Prelude.Text.{Text, text_eq, text_beq_iff}
use simpledeploy.Prelude.Dict.{Dict, lookup, insert, lookup-insert}
use simpledeploy.Compose.Container.Contained.{nil-left, nil-right, when-nil}
use simpledeploy.Compose.Endpoint.{
  EndpointConfig, valid_protocol, valid_path, effective_tls, endpoint_match_key, check_tls,
  check_match, check_endpoint, endpoints_loop, validate_endpoints,
}

-- The protocol is known, and the path, if there is one, is a good one.
abbrev pub IsValidEndpoint : EndpointConfig → Type 0
IsValidEndpoint ep =
    (valid_protocol ep.protocol ≡ true) × ((ep.path == [] || valid_path ep.path) ≡ true)

-- Two endpoints have two matchers, and on one domain they have one tls mode.
abbrev pub GoTogether : EndpointConfig → EndpointConfig → Type 0
GoTogether a b =
    ((endpoint_match_key a == endpoint_match_key b) ≡ false)
    × (((a.domain == b.domain) ≡ false) ⊎ (effective_tls b.tls ≡ effective_tls a.tls))

abbrev pub AllTogether : List EndpointConfig → Type 0
AllTogether [] = Unit
AllTogether (ep ∷ eps) = All (GoTogether ep) eps × AllTogether eps

abbrev TlsFits : Option EndpointConfig → EndpointConfig → Type 0
TlsFits none ep = Unit
TlsFits (some first) ep = effective_tls ep.tls ≡ effective_tls first.tls

-- An endpoint that passes, by the two maps it meets.
abbrev Fits : Dict Text EndpointConfig → Dict Text EndpointConfig → EndpointConfig → Type 0
Fits seen domain_tls ep =
    IsValidEndpoint ep
    × (lookup (endpoint_match_key ep) seen ≡ none)
    × TlsFits (lookup ep.domain domain_tls) ep

abbrev first_tls :
    EndpointConfig → Dict Text EndpointConfig → Option EndpointConfig → Dict Text EndpointConfig
first_tls ep domain_tls none = insert ep.domain ep domain_tls
first_tls ep domain_tls (some first) = domain_tls

module _ (quote : Text → Text) (decimal : ℕ → Text) where
  tls-nil :
      (ep : EndpointConfig) (seen domain_tls : Dict Text EndpointConfig)
      (held : Option EndpointConfig)
      → (check_tls quote decimal ep seen domain_tls held).0 ≡ []
      → TlsFits held ep
        × ((check_tls quote decimal ep seen domain_tls held).1
            ≡ (seen, first_tls ep domain_tls held))
  tls-nil ep seen domain_tls none e = (tt, refl)
  tls-nil ep seen domain_tls (some first) e =
      let same = when-nil (not (effective_tls ep.tls == effective_tls first.tls)) _ e in
      ((text_beq_iff (effective_tls ep.tls) (effective_tls first.tls)).0 (ground arith), refl)

  match-nil :
      (ep : EndpointConfig) (seen domain_tls : Dict Text EndpointConfig)
      (held : Option EndpointConfig)
      → (check_match quote decimal ep seen domain_tls held).0 ≡ []
      → (held ≡ none)
        × TlsFits (lookup ep.domain domain_tls) ep
        × ((check_match quote decimal ep seen domain_tls held).1 ≡ (
          insert (endpoint_match_key ep) ep seen,
          first_tls ep domain_tls (lookup ep.domain domain_tls),
        ))
  match-nil ep seen domain_tls (some first) e = cc
  match-nil ep seen domain_tls none e =
      let (fits, next) =
        tls-nil ep (insert (endpoint_match_key ep) ep seen) domain_tls (lookup ep.domain domain_tls)
          e in
      (refl, fits, next)

  endpoint-nil :
      (ep : EndpointConfig) (seen domain_tls : Dict Text EndpointConfig)
      → (check_endpoint quote decimal ep seen domain_tls).0 ≡ []
      → Fits seen domain_tls ep
        × ((check_endpoint quote decimal ep seen domain_tls).1 ≡ (
          insert (endpoint_match_key ep) ep seen,
          first_tls ep domain_tls (lookup ep.domain domain_tls),
        ))
  unfolding check_endpoint
  endpoint-nil ep seen domain_tls e = elim (Bool-cases (valid_protocol ep.protocol)) [
    | inr bad ↦ let no = rw bad at e in cc
    | inl good ↦ elim (Bool-cases (not (ep.path == []) && not (valid_path ep.path))) [
      | inl bad ↦ let no = rw (good, bad) at e in cc
      | inr fine ↦
          let (fresh, fits, next) =
            match-nil ep seen domain_tls (lookup (endpoint_match_key ep) seen)
              (rw (good, fine) at e) in
          (((good, ground arith), fresh, fits), rw (good, fine) next)
    ]
  ]

TlsTogether : EndpointConfig → EndpointConfig → Type 0
TlsTogether a b = ((a.domain == b.domain) ≡ false) ⊎ (effective_tls b.tls ≡ effective_tls a.tls)

tls-back :
    (ep e : EndpointConfig) (domain_tls : Dict Text EndpointConfig) (held : Option EndpointConfig)
    → lookup ep.domain domain_tls ≡ held
    → TlsFits held ep
    → TlsFits (lookup e.domain (first_tls ep domain_tls held)) e
    → TlsFits (lookup e.domain domain_tls) e × TlsTogether ep e
unfolding TlsTogether
tls-back ep e domain_tls none at_ep fits after = elim (Bool-cases (ep.domain == e.domain)) [
  | inl same ↦
      let at_e = (text_beq_iff ep.domain e.domain).0 same in
      (rw (← at_e, at_ep) tt, inr (rw (lookup-insert, same) at after))
  | inr other ↦ (rw (lookup-insert, other) at after, inl other)
]
tls-back ep e domain_tls (some first) at_ep fits after = elim (Bool-cases (ep.domain == e.domain)) [
  | inl same ↦
      let at_e = (text_beq_iff ep.domain e.domain).0 same in
      let found : lookup e.domain domain_tls ≡ some first = rw (← at_e) at_ep in
      let as_first : effective_tls e.tls ≡ effective_tls first.tls = rw found at after in
      (after, inr (as_first ∙ sym fits))
  | inr other ↦ (after, inl other)
]

Fits-back :
    (ep e : EndpointConfig) (seen domain_tls : Dict Text EndpointConfig)
    → TlsFits (lookup ep.domain domain_tls) ep
    → Fits
        (insert (endpoint_match_key ep) ep seen)
        (first_tls ep domain_tls (lookup ep.domain domain_tls))
        e
    → Fits seen domain_tls e × GoTogether ep e
unfolding TlsTogether
Fits-back ep e seen domain_tls fits (valid, fresh, after) =
    let (before, together) =
      tls-back ep e domain_tls (lookup ep.domain domain_tls) refl fits after in
    elim (Bool-cases (endpoint_match_key ep == endpoint_match_key e)) [
      | inl same ↦ let no = rw (lookup-insert, same) at fresh in cc
      | inr other ↦ ((valid, rw (lookup-insert, other) at fresh, before), (other, together))
    ]

All-back :
    (ep : EndpointConfig) (eps : List EndpointConfig) (seen domain_tls : Dict Text EndpointConfig)
    → TlsFits (lookup ep.domain domain_tls) ep
    → All
        (Fits
          (insert (endpoint_match_key ep) ep seen)
          (first_tls ep domain_tls (lookup ep.domain domain_tls)))
        eps
    → All (Fits seen domain_tls) eps × All (GoTogether ep) eps
All-back ep [] seen domain_tls fits h = (tt, tt)
All-back ep (e ∷ eps) seen domain_tls fits (he, h) =
    let (one, two) = Fits-back ep e seen domain_tls fits he in
    let (ones, twos) = All-back ep eps seen domain_tls fits h in ((one, ones), (two, twos))

loop-nil :
    (quote : Text → Text) (decimal : ℕ → Text) (eps : List EndpointConfig)
    (seen domain_tls : Dict Text EndpointConfig)
    → endpoints_loop quote decimal eps seen domain_tls ≡ []
    → All (Fits seen domain_tls) eps × AllTogether eps
unfolding endpoints_loop
loop-nil quote decimal [] seen domain_tls e = (tt, tt)
loop-nil quote decimal (ep ∷ eps) seen domain_tls e =
    let step = check_endpoint quote decimal ep seen domain_tls in
    let rest = endpoints_loop quote decimal eps step.1.0 step.1.1 in
    let (fits, next) = endpoint-nil quote decimal ep seen domain_tls (nil-left step.0 rest e) in
    let (all_fit, together) =
      loop-nil quote decimal eps step.1.0 step.1.1 (nil-right step.0 rest e) in
    let (_, _, tls) = fits in
    let (back, with_ep) = All-back ep eps seen domain_tls tls (rw next at all_fit) in
    ((fits, back), (with_ep, together))

All-IsValidEndpoint : (eps : List EndpointConfig) → All (Fits [] []) eps → All IsValidEndpoint eps
All-IsValidEndpoint [] h = tt
All-IsValidEndpoint (ep ∷ eps) ((valid, _, _), h) = (valid, All-IsValidEndpoint eps h)

-- Endpoints without violations have known protocols and good paths, any two of them have different
-- matchers, and any two on one domain have the same tls mode.
pub validate_endpoints-nil :
    (quote : Text → Text) (decimal : ℕ → Text) (eps : List EndpointConfig)
    → validate_endpoints quote decimal eps ≡ []
    → All IsValidEndpoint eps × AllTogether eps
unfolding validate_endpoints
validate_endpoints-nil quote decimal eps e =
    let (fits, together) = loop-nil quote decimal eps [] [] e in
    (All-IsValidEndpoint eps fits, together)
