-- ===== src/Compose/Endpoint.antt =====
-- internal/compose/endpoint.go: the endpoint labels of an app.
pub mod Distinct
use simpledeploy.Prelude.{
  ℕ, Bool, true, false, not, ◌&&◌, ◌||◌, Option, none, some, List, [], ◌∷◌, ◌++◌, leb,
  if◌then◌else◌, ◌==◌, nat_eq, length, all,
}
use simpledeploy.Prelude.Text.{Text, text_eq, codes, to_lower, trim_space}
use simpledeploy.Prelude.Dict.{Dict, lookup, insert}
use simpledeploy.Compose.Container.{when}
use simpledeploy.Compose.Security.{FileRef, Project}
use simpledeploy.Compose.HostPath.{Protected}
use simpledeploy.Compose.Validate.{validate_compose_security}

pub record EndpointConfig : Type 0 where
  pub domain : Text
  pub port : Text
  pub tls : Text
  pub service : Text
  pub protocol : Text
  pub path : Text
  pub index : ℕ

abbrev pub protocol_http : Text
protocol_http = codes "http"

abbrev pub protocol_h2c : Text
protocol_h2c = codes "h2c"

abbrev pub protocol_grpc : Text
protocol_grpc = codes "grpc"

abbrev pub max_endpoint_path_len : ℕ
max_endpoint_path_len = 256

unfoldable pub normalize_protocol : Text → Text
normalize_protocol p = to_lower (trim_space p)

unfoldable pub valid_protocol : Text → Bool
valid_protocol p = p == [] || p == protocol_http || p == protocol_h2c || p == protocol_grpc

-- `[A-Za-z0-9._~%/*-]`
abbrev pub is_path_byte : ℕ → Bool
is_path_byte c =
    (leb b'A' c && leb c b'Z')
    || (leb b'a' c && leb c b'z')
    || (leb b'0' c && leb c b'9')
    || c == b'.'
    || c == b'_'
    || c == b'~'
    || c == b'%'
    || c == b'/'
    || c == b'*'
    || c == b'-'

-- `^/[A-Za-z0-9._~%/*-]*$`
abbrev pub path_matches : Text → Bool
path_matches [] = false
path_matches (c ∷ s) = c == b'/' && all is_path_byte s

unfoldable pub valid_path : Text → Bool
valid_path p = leb (length p) max_endpoint_path_len && path_matches p

unfoldable pub effective_tls : Text → Text
effective_tls t =
    let s = to_lower (trim_space t) in
    if s == [] || s == codes "letsencrypt" then codes "auto" else s

abbrev pub bool_text : Bool → Text
bool_text true = codes "true"
bool_text false = codes "false"

-- The key that stands for the Caddy matcher.
unfoldable pub endpoint_match_key : EndpointConfig → Text
endpoint_match_key ep =
    ep.domain
    ++ (codes "|grpc=" ++ (bool_text (ep.protocol == protocol_grpc) ++ (codes "|" ++ ep.path)))

-- `quote` and `decimal` are the verbs %q and %d.
module _ (quote : Text → Text) (decimal : ℕ → Text) where
  unfoldable pub endpoint_ref : EndpointConfig → Text
  endpoint_ref ep =
      if ep.service == []
      then codes "label simpledeploy.endpoints." ++ decimal ep.index
      else codes "service "
        ++ quote ep.service
        ++ codes " label simpledeploy.endpoints."
        ++ decimal ep.index

  abbrev pub ref_of : EndpointConfig → Text
  ref_of ep = endpoint_ref ep ++ codes " (" ++ ep.domain ++ codes ")"

  abbrev pub bad_protocol : EndpointConfig → Text
  bad_protocol ep =
      ref_of ep
      ++ codes ": invalid protocol "
      ++ quote ep.protocol
      ++ codes " (want http, h2c or grpc)"

  abbrev pub bad_path : EndpointConfig → Text
  bad_path ep =
      ref_of ep
      ++ codes ": invalid path "
      ++ quote ep.path
      ++ codes " (must start with / and use only letters, digits, . _ ~ % / * -; max "
      ++ decimal max_endpoint_path_len
      ++ codes " chars)"

  abbrev pub duplicate : EndpointConfig → EndpointConfig → Text
  duplicate ep first =
      ref_of ep
      ++ codes ": duplicates "
      ++ endpoint_ref first
      ++ codes " (same domain, path and grpc matcher)"

  abbrev pub tls_conflict : EndpointConfig → EndpointConfig → Text
  tls_conflict ep first =
      ref_of ep
      ++ codes ": tls "
      ++ quote (effective_tls ep.tls)
      ++ codes " conflicts with tls "
      ++ quote (effective_tls first.tls)
      ++ codes " of "
      ++ endpoint_ref first
      ++ codes " (endpoints sharing a domain must use the same tls mode)"

  -- The maps `seen` and `domainTLS` after one endpoint, and what is said of it.
  abbrev pub check_tls :
      EndpointConfig
      → Dict Text EndpointConfig
      → Dict Text EndpointConfig
      → Option EndpointConfig
      → List Text × (Dict Text EndpointConfig × Dict Text EndpointConfig)
  check_tls ep seen domain_tls none = ([], (seen, insert ep.domain ep domain_tls))
  check_tls ep seen domain_tls (some first) = (
    when (not (effective_tls ep.tls == effective_tls first.tls)) (tls_conflict ep first),
    (seen, domain_tls),
  )

  abbrev pub check_match :
      EndpointConfig
      → Dict Text EndpointConfig
      → Dict Text EndpointConfig
      → Option EndpointConfig
      → List Text × (Dict Text EndpointConfig × Dict Text EndpointConfig)
  check_match ep seen domain_tls (some first) = (duplicate ep first ∷ [], (seen, domain_tls))
  check_match ep seen domain_tls none =
      check_tls ep (insert (endpoint_match_key ep) ep seen) domain_tls (lookup ep.domain domain_tls)

  unfoldable pub check_endpoint :
      EndpointConfig
      → Dict Text EndpointConfig
      → Dict Text EndpointConfig
      → List Text × (Dict Text EndpointConfig × Dict Text EndpointConfig)
  check_endpoint ep seen domain_tls =
      if not (valid_protocol ep.protocol)
      then (bad_protocol ep ∷ [], (seen, domain_tls))
      else if not (ep.path == []) && not (valid_path ep.path)
      then (bad_path ep ∷ [], (seen, domain_tls))
      else check_match ep seen domain_tls (lookup (endpoint_match_key ep) seen)

  unfoldable pub endpoints_loop :
      List EndpointConfig → Dict Text EndpointConfig → Dict Text EndpointConfig → List Text
  unfolding check_endpoint
  endpoints_loop [] seen domain_tls = []
  endpoints_loop (ep ∷ eps) seen domain_tls =
      let (violations, (seen', domain_tls')) = check_endpoint ep seen domain_tls in
      violations ++ endpoints_loop eps seen' domain_tls'

  unfoldable pub validate_endpoints : List EndpointConfig → List Text
  unfolding endpoints_loop
  validate_endpoints eps = endpoints_loop eps [] []

  -- `none` for the endpoints is an app that could not be read.
  abbrev pub endpoint_violations : Option (List EndpointConfig) → List Text
  endpoint_violations none = []
  endpoint_violations (some eps) = validate_endpoints eps

  unfoldable pub validate_compose_for_deploy :
      (Text → Option Text)
      → (Text → Option Text)
      → Protected
      → Text
      → Text
      → List FileRef
      → Option Project
      → Option (List EndpointConfig)
      → List Text
  unfolding validate_endpoints validate_compose_security
  validate_compose_for_deploy resolve abs protected compose_path app refs p eps =
      validate_compose_security resolve quote decimal abs protected compose_path app refs p
      ++ endpoint_violations eps
