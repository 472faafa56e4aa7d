-- ===== src/Compose/Inject.antt =====
-- internal/compose/inject.go: services with endpoints join the shared network.
pub mod Idempotent
pub mod Joined
use simpledeploy.Prelude.{
  ℕ, Bool, true, false, not, ◌&&◌, ◌||◌, Option, none, some, List, [], ◌∷◌, leb, eqb, if◌then◌else◌,
  length, drop, ◌==◌,
}
use simpledeploy.Prelude.Text.{Text, text_eq, codes, has_prefix}
use simpledeploy.Compose.Yaml.{
  Node, scalar, sequence, mapping, alias, Nodes, nil, cons, Fields, end, field, find_value,
  put_value, add_field, add_item, has_item,
}

abbrev pub networks_key : Text
networks_key = codes "networks"

abbrev pub services_key : Text
services_key = codes "services"

abbrev pub labels_key : Text
labels_key = codes "labels"

-- A node that the code makes has no tag.
abbrev pub plain : Text → Node
plain text = scalar [] text

-- `^simpledeploy\.endpoints\.\d+\.`: digits, one at least, and then a dot.
abbrev pub is_digit : ℕ → Bool
is_digit c = leb b'0' c && leb c b'9'

unfoldable pub digits_dot : Bool → Text → Bool
digits_dot some_digit [] = false
digits_dot some_digit (c ∷ s) =
    let rest = digits_dot true s in if is_digit c then rest else some_digit && eqb c b'.'

abbrev pub label_prefix : Text
label_prefix = codes "simpledeploy.endpoints."

unfoldable pub is_endpoint_label : Text → Bool
unfolding has_prefix digits_dot
is_endpoint_label label =
    has_prefix label label_prefix && digits_dot false (drop (length label_prefix) label)

-- The text before the first "=", or all of it.
unfoldable pub before_equals : Text → Text
before_equals [] = []
before_equals (c ∷ s) = let rest = before_equals s in if eqb c b'=' then [] else c ∷ rest

abbrev pub is_label_key : Node → Bool
is_label_key (scalar tag value) = is_endpoint_label value
is_label_key (sequence items) = false
is_label_key (mapping fields) = false
is_label_key alias = false

abbrev pub is_label_item : Node → Bool
is_label_item (scalar tag value) = is_endpoint_label (before_equals value)
is_label_item (sequence items) = false
is_label_item (mapping fields) = false
is_label_item alias = false

unfoldable pub any_label_key : Fields → Bool
any_label_key end = false
any_label_key (field k v fs) = is_label_key k || any_label_key fs

unfoldable pub any_label_item : Nodes → Bool
any_label_item nil = false
any_label_item (cons x xs) = is_label_item x || any_label_item xs

abbrev pub has_label : Option Node → Bool
has_label none = false
has_label (some (scalar tag value)) = false
has_label (some (sequence items)) = any_label_item items
has_label (some (mapping fields)) = any_label_key fields
has_label (some alias) = false

-- On the pairs of a service.
unfoldable pub service_has_endpoint_label : Fields → Bool
unfolding any_label_item any_label_key
service_has_endpoint_label svc = has_label (find_value labels_key svc)

-- Adds the network to a mapping of networks that does not have it.
abbrev pub join_networks : Text → Node → Fields → Fields → Option Node → Fields × Bool
join_networks name network parent nets (some v) = (parent, false)
join_networks name network parent nets none =
    (put_value networks_key (mapping (add_field (plain name) network nets)) parent, true)

-- In a list of its own the network "default" keeps the service on the network of the project.
abbrev pub attach_to : Text → Fields → Option Node → Fields × Bool
attach_to name svc none = (
  add_field (plain networks_key) (sequence (cons (plain (codes "default")) (cons (plain name) nil)))
      svc,
  true,
)
attach_to name svc (some (scalar tag value)) = (svc, false)
attach_to name svc (some (sequence items)) =
    if has_item name items
    then (svc, false)
    else (put_value networks_key (sequence (add_item (plain name) items)) svc, true)
attach_to name svc (some (mapping nets)) =
    join_networks name (mapping end) svc nets (find_value name nets)
attach_to name svc (some alias) = (svc, false)

unfoldable pub attach_service_network : Text → Fields → Fields × Bool
unfolding add_item
attach_service_network name svc = attach_to name svc (find_value networks_key svc)

-- One service of the mapping: others than mappings, and those without endpoints, are left alone.
abbrev pub visit_service : Text → Node → Node × Bool
visit_service name (scalar tag value) = (scalar tag value, false)
visit_service name (sequence items) = (sequence items, false)
visit_service name alias = (alias, false)
visit_service name (mapping svc) =
    if service_has_endpoint_label svc
    then (mapping (attach_service_network name svc).0, (attach_service_network name svc).1)
    else (mapping svc, false)

unfoldable pub attach_services : Text → Fields → Fields × Bool
unfolding service_has_endpoint_label attach_service_network
attach_services name end = (end, false)
attach_services name (field k v fs) =
    let visited = visit_service name v in
    let rest = attach_services name fs in (field k visited.0 rest.0, visited.1 || rest.1)

abbrev pub is_found : Option Node → Bool
is_found none = false
is_found (some v) = true

abbrev pub lists_network : Text → Option Node → Bool
lists_network name none = false
lists_network name (some (scalar tag value)) = false
lists_network name (some (sequence items)) = has_item name items
lists_network name (some (mapping nets)) = is_found (find_value name nets)
lists_network name (some alias) = false

abbrev pub is_attached : Text → Node → Bool
is_attached name (scalar tag value) = false
is_attached name (sequence items) = false
is_attached name alias = false
is_attached name (mapping svc) = lists_network name (find_value networks_key svc)

unfoldable pub any_attached : Text → Fields → Bool
any_attached name end = false
any_attached name (field k v fs) = is_attached name v || any_attached name fs

-- `{external: true, name: <name>}`.
abbrev pub external_network : Text → Node
external_network name = mapping (
    field (plain (codes "external")) (scalar (codes "!!bool") (codes "true"))
      (field (plain (codes "name")) (plain name) end))

abbrev pub declare : Text → Fields → Option Node → Fields × Bool
declare name top none = (
  add_field (plain networks_key) (mapping (field (plain name) (external_network name) end)) top,
  true,
)
declare name top (some (scalar tag value)) = (top, false)
declare name top (some (sequence items)) = (top, false)
declare name top (some alias) = (top, false)
declare name top (some (mapping nets)) =
    join_networks name (external_network name) top nets (find_value name nets)

unfoldable pub ensure_top_level_network : Text → Fields → Fields × Bool
unfolding add_field
ensure_top_level_network name top = declare name top (find_value networks_key top)

-- The pairs of the document once the services are visited, whether one changed, and whether one is
-- attached now.
abbrev pub visit_all : Text → Fields → Option Node → Fields × Bool × Bool
visit_all name top none = (top, false, false)
visit_all name top (some (scalar tag value)) = (top, false, false)
visit_all name top (some (sequence items)) = (top, false, false)
visit_all name top (some alias) = (top, false, false)
visit_all name top (some (mapping svcs)) =
    let visited = attach_services name svcs in
    (put_value services_key (mapping visited.0) top, visited.1, any_attached name visited.0)

abbrev pub declare_if : Text → Fields × Bool × Bool → Fields × Bool
declare_if name (top, changed, attached) =
    if changed || attached
    then ((ensure_top_level_network name top).0, changed || (ensure_top_level_network name top).1)
    else (top, changed)

-- The rewriting of the tree, and whether it changed.
unfoldable pub inject_fields : Text → Fields → Fields × Bool
unfolding attach_services any_attached ensure_top_level_network
inject_fields name top = declare_if name (visit_all name top (find_value services_key top))

abbrev pub encoded : (Fields → Option Text) → Text → Fields × Bool → Option (Text × Bool)
encoded encode content (top, false) = some (content, false)
encoded encode content (top, true) = elim (encode top) [
  | none ↦ none
  | some out ↦ if out == content then some (content, false) else some (out, true)
]

-- What package yaml makes of the file: not readable, a document that is no mapping, or a mapping.
pub data Parsed : Type 0 where
  unreadable : Parsed
  other : Parsed
  document : Fields → Parsed

abbrev pub inject_parsed : Text → (Fields → Option Text) → Text → Parsed → Option (Text × Bool)
inject_parsed name encode content unreadable = none
inject_parsed name encode content other = some (content, false)
inject_parsed name encode content (document top) = encoded encode content (inject_fields name top)

-- none is an error, with which the source returns the content as it was.
unfoldable pub inject_shared_network :
    (Text → Parsed) → (Fields → Option Text) → Text → Text → Option (Text × Bool)
unfolding inject_fields
inject_shared_network parse encode content name = inject_parsed name encode content (parse content)
