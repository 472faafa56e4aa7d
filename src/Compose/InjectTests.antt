-- ===== src/Compose/InjectTests.antt =====
-- internal/compose/inject.go on small files.
use simpledeploy.Prelude.{true, false, not, ◌||◌, some, [], ◌≡◌, refl}
use simpledeploy.Prelude.Text.{Text, codes, text_beq, has_prefix}
use simpledeploy.Compose.Yaml.{
  scalar, sequence, mapping, nil, cons, Fields, end, field, find_value, put_value, add_field,
  has_item,
}
use simpledeploy.Compose.Inject.{
  plain, networks_key, services_key, labels_key, is_endpoint_label, digits_dot, attach_services,
  any_attached, inject_fields, external_network,
}
use simpledeploy.Compose.Inject.Idempotent.{Settles, inject_fields-Settles}
use simpledeploy.Compose.Inject.Joined.{all_join, is_declared, inject_fields-joins}

abbrev shared : Text
shared = codes "shared"

-- A service with an endpoint, with some networks.
abbrev web : Fields → Fields
web nets =
    field (plain labels_key)
      (mapping (field (plain (codes "simpledeploy.endpoints.0.domain")) (plain (codes "a.io")) end))
      nets

abbrev file_of : Fields → Fields
file_of svcs = field (plain services_key) (mapping svcs) end

abbrev web_services : Fields
web_services = field (plain (codes "web")) (mapping (web end)) end

inject_fields-Settles_example : Settles (inject_fields shared) (file_of web_services)
inject_fields-Settles_example = inject_fields-Settles shared (file_of web_services)

found_services : find_value services_key (file_of web_services) ≡ some (mapping web_services)
unfolding find_value text_beq
found_services = refl

inject_fields-joins_example :
    (find_value services_key (inject_fields shared (file_of web_services)).0
      ≡ some (mapping (attach_services shared web_services).0))
    × (all_join shared (attach_services shared web_services).0 ≡ true)
    × ((not (any_attached shared (attach_services shared web_services).0)
          || is_declared shared
              (find_value networks_key (inject_fields shared (file_of web_services)).0))
        ≡ true)
inject_fields-joins_example =
    inject_fields-joins shared (file_of web_services) web_services found_services

-- A service without networks keeps the default one.
joined_with_default : inject_fields shared (file_of web_services) ≡ (
  field
      (plain services_key)
      (mapping (
        field
          (plain (codes "web"))
          (mapping (
            web (
              field
                (plain networks_key)
                (sequence (cons (plain (codes "default")) (cons (plain shared) nil)))
                end)))
          end))
      (field
        (plain networks_key)
        (mapping (field (plain shared) (external_network shared) end))
        end),
  true,
)
unfolding inject_fields attach_services any_attached find_value text_beq put_value add_field
    has_prefix has_item is_endpoint_label
joined_with_default = refl

-- `networks:` with no value is null, to which nothing is added.
null_networks_left :
    (inject_fields shared (
      file_of (
        field
          (plain (codes "web"))
          (mapping (web (field (plain networks_key) (scalar (codes "!!null") []) end)))
          end))).1
    ≡ false
unfolding inject_fields attach_services any_attached find_value text_beq put_value has_prefix
    is_endpoint_label
null_networks_left = refl

label_needs_digits : is_endpoint_label (codes "simpledeploy.endpoints.x.domain") ≡ false
unfolding is_endpoint_label has_prefix digits_dot
label_needs_digits = refl
