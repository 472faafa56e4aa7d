-- ===== src/Compose/Scalable.antt =====
-- internal/compose/scalable.go: which services may run as several replicas.
use simpledeploy.Prelude.{
  Bool, true, false, not, ◌&&◌, ◌||◌, ◌≡◌, refl, inl, inr, Option, none, some, List, [], ◌∷◌, ◌++◌,
  if◌then◌else◌, ◌==◌, nat_eq, any, Bool-cases,
}
use simpledeploy.Prelude.Text.{Text, text_eq, codes, to_lower, trim_space}
use simpledeploy.Prelude.Dict.{Dict, lookup}
use simpledeploy.Paths.{after_slash}
use simpledeploy.Compose.Container.{equal_fold}

-- The fields of ServiceConfig that are read: of a port its host side, of a volume its type and source.
pub record ScaledService : Type 0 where
  pub image : Text
  pub host_ports : List Text
  pub volumes : List (Text × Text)
  pub labels : Dict Text Text
  pub deploy_mode : Text

abbrev pub stateful_images : List Text
stateful_images =
    codes "postgres"
    ∷ codes "postgresql"
    ∷ codes "mysql"
    ∷ codes "mariadb"
    ∷ codes "percona"
    ∷ codes "mongo"
    ∷ codes "redis"
    ∷ codes "valkey"
    ∷ codes "dragonfly"
    ∷ codes "elasticsearch"
    ∷ codes "opensearch"
    ∷ codes "clickhouse"
    ∷ codes "cassandra"
    ∷ codes "scylla"
    ∷ codes "rabbitmq"
    ∷ codes "kafka"
    ∷ codes "nats"
    ∷ codes "pulsar"
    ∷ codes "etcd"
    ∷ codes "consul"
    ∷ codes "zookeeper"
    ∷ codes "neo4j"
    ∷ codes "arangodb"
    ∷ codes "surrealdb"
    ∷ codes "influxdb"
    ∷ codes "victoriametrics"
    ∷ codes "timescale"
    ∷ codes "questdb"
    ∷ codes "prometheus"
    ∷ codes "qdrant"
    ∷ codes "weaviate"
    ∷ codes "milvus"
    ∷ codes "minio"
    ∷ codes "silo"
    ∷ codes "seaweedfs"
    ∷ codes "cockroach"
    ∷ codes "tidb"
    ∷ codes "yugabyte"
    ∷ []

-- The text before the first ":" or "@".
unfoldable pub before_tag : Text → Text
before_tag [] = []
before_tag (c ∷ s) = let rest = before_tag s in if c == b':' || c == b'@' then [] else c ∷ rest

abbrev pub image_name : Text → Text
image_name image = to_lower (before_tag (after_slash image))

unfoldable pub first_equal : Text → List Text → Option Text
first_equal name [] = none
first_equal name (p ∷ ps) = let rest = first_equal name ps in if name == p then some p else rest

abbrev pub stateful_reason : Option Text → Text
stateful_reason none = []
stateful_reason (some p) = codes "stateful image (" ++ p ++ codes ")"

unfoldable pub match_stateful_image : Text → Text
unfolding before_tag first_equal
match_stateful_image image =
    if image == [] then [] else stateful_reason (first_equal (image_name image) stateful_images)

-- The first port with a host side.
unfoldable pub host_port : List Text → Option Text
host_port [] = none
host_port (p ∷ ps) = let rest = host_port ps in if not (trim_space p == []) then some p else rest

abbrev pub is_persistent : Text × Text → Bool
is_persistent (kind, source) = kind == codes "volume" && not (trim_space source == [])

-- What the label says, if it says anything.
abbrev pub forced : Option Text → Option Bool
forced none = none
forced (some v) =
    let w = to_lower (trim_space v) in
    if w == codes "false" || w == codes "0" || w == codes "no"
    then some false
    else if w == codes "true" || w == codes "1" || w == codes "yes"
    then some true
    else none

abbrev pub unless_stateful : Text → Bool × Text
unless_stateful [] = (true, [])
unless_stateful (c ∷ reason) = (false, c ∷ reason)

abbrev pub unless_published : ScaledService → Option Text → Bool × Text
unless_published s (some p) = (false, codes "publishes host port " ++ p)
unless_published s none =
    if any is_persistent s.volumes
    then (false, codes "uses persistent volume")
    else unless_stateful (match_stateful_image s.image)

abbrev pub unless_forced : ScaledService → Option Bool → Bool × Text
unless_forced s (some true) = (true, [])
unless_forced s (some false) = (false, codes "marked non-scalable by app config")
unless_forced s none =
    if equal_fold s.deploy_mode (codes "global")
    then (false, codes "deploy mode is global")
    else unless_published s (host_port s.host_ports)

abbrev pub scale_of : Option ScaledService → Bool × Text
scale_of none = (false, codes "unknown service")
scale_of (some s) = unless_forced s (forced (lookup (codes "simpledeploy.scalable") s.labels))

unfoldable pub scale_eligibility : Option ScaledService → Bool × Text
unfolding match_stateful_image host_port
scale_eligibility s = scale_of s

stateless : (reason : Text) → (unless_stateful reason).0 ≡ true → reason ≡ []
stateless [] e = refl
stateless (c ∷ reason) e = cc

unpublished :
    (s : ScaledService) (port : Option Text)
    → (unless_published s port).0 ≡ true
    → (port ≡ none) × (any is_persistent s.volumes ≡ false) × (match_stateful_image s.image ≡ [])
unpublished s (some p) e = cc
unpublished s none e = elim (Bool-cases (any is_persistent s.volumes)) [
  | inl kept ↦ let no = rw kept at e in cc
  | inr free ↦ (refl, free, stateless (match_stateful_image s.image) (rw free at e))
]

-- A service that may be scaled, without a label that says so, has no port on the host, no named volume
-- and no image that is known to keep state, and does not run on each node.
pub scale_eligibility-unforced :
    (s : ScaledService)
    → forced (lookup (codes "simpledeploy.scalable") s.labels) ≡ none
    → (scale_eligibility (some s)).0 ≡ true
    → (equal_fold s.deploy_mode (codes "global") ≡ false)
      × (host_port s.host_ports ≡ none)
      × (any is_persistent s.volumes ≡ false)
      × (match_stateful_image s.image ≡ [])
unfolding scale_eligibility
scale_eligibility-unforced s unsaid e =
    elim (Bool-cases (equal_fold s.deploy_mode (codes "global"))) [
      | inl everywhere ↦ let no = rw (unsaid, everywhere) at e in cc
      | inr one ↦
          let (ports, volumes, image) =
            unpublished s (host_port s.host_ports) (rw (unsaid, one) at e) in
          (one, ports, volumes, image)
    ]
