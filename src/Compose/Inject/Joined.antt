-- ===== src/Compose/Inject/Joined.antt =====
-- Where the shared network stands after the rewriting.
use simpledeploy.Prelude.{
  Bool, true, false, not, ◌&&◌, ◌||◌, Option, none, some, [], ◌≡◌, refl, ◌∙◌, arith, Bool-cases,
  Option-cases, inl, inr, beq_self,
}
use simpledeploy.Prelude.Text.{Text, text_eq}
use simpledeploy.Compose.Yaml.{
  Node, scalar, sequence, mapping, alias, Fields, end, field, find_value, put_value, add_field,
  add_item, has_item, find_value-put_value, find_value-add_field, has_item-add_item,
}
use simpledeploy.Compose.Inject.{
  plain, networks_key, services_key, service_has_endpoint_label, attach_to, attach_service_network,
  visit_service, attach_services, lists_network, is_found, any_attached, external_network, declare,
  ensure_top_level_network, declare_if, inject_fields,
}
use simpledeploy.Compose.Inject.Idempotent.{has_item-default, ensure-services, find_value_one}

-- Networks that are neither a list nor a mapping, such as null, are left as they are.
abbrev pub is_untouched : Option Node → Bool
is_untouched none = false
is_untouched (some (scalar tag value)) = true
is_untouched (some (sequence items)) = false
is_untouched (some (mapping nets)) = false
is_untouched (some alias) = true

abbrev pub is_joined : Text → Option Node → Bool
is_joined name nets = lists_network name nets || is_untouched nets

-- A service with endpoints names the network.
abbrev pub joins : Text → Node → Bool
joins name (scalar tag value) = true
joins name (sequence items) = true
joins name alias = true
joins name (mapping svc) =
    not (service_has_endpoint_label svc) || is_joined name (find_value networks_key svc)

abbrev pub all_join : Text → Fields → Bool
all_join name end = true
all_join name (field k v fs) = joins name v && all_join name fs

-- The networks of the file declare it, unless they are something else than a mapping.
abbrev pub is_declared : Text → Option Node → Bool
is_declared name none = false
is_declared name (some (scalar tag value)) = true
is_declared name (some (sequence items)) = true
is_declared name (some alias) = true
is_declared name (some (mapping nets)) = is_found (find_value name nets)

module _ (name : Text) where
  attach_to-joins :
      (svc : Fields) (found : Option Node)
      → find_value networks_key svc ≡ found
      → is_joined name (find_value networks_key (attach_to name svc found).0) ≡ true
  attach_to-joins svc none h =
      rw (find_value-add_field networks_key [] _ svc h (beq_self networks_key))
        (rw (has_item-default name))
  attach_to-joins svc (some (scalar tag value)) h = rw h
  attach_to-joins svc (some alias) h = rw h
  attach_to-joins svc (some (sequence items)) h = elim (Bool-cases (has_item name items)) [
    | inl there ↦ rw there (rw (h, there))
    | inr missing ↦ rw missing (
        rw (
          find_value-put_value networks_key (sequence items)
              (sequence (add_item (plain name) items)) svc h,
          has_item-add_item name [] items (beq_self name),
        ))
  ]
  attach_to-joins svc (some (mapping nets)) h = elim (Option-cases (find_value name nets)) [
    | inr (v, there) ↦ rw there (rw (h, there))
    | inl missing ↦ rw missing (
        rw (
          find_value-put_value networks_key (mapping nets)
              (mapping (add_field (plain name) (mapping end) nets)) svc h,
          find_value-add_field name [] (mapping end) nets missing (beq_self name),
        ))
  ]

  visit_service-joins : (v : Node) → joins name (visit_service name v).0 ≡ true
  unfolding attach_service_network
  visit_service-joins (scalar tag value) = refl
  visit_service-joins (sequence items) = refl
  visit_service-joins alias = refl
  visit_service-joins (mapping svc) = elim (Bool-cases (service_has_endpoint_label svc)) [
    | inl labelled ↦
        rw labelled (ground (arith, attach_to-joins svc (find_value networks_key svc) refl))
    | inr other ↦ rw other (rw other)
  ]

  attach_services-join : (svcs : Fields) → all_join name (attach_services name svcs).0 ≡ true
  unfolding attach_services
  attach_services-join end = refl
  attach_services-join (field k v svcs) = rw (visit_service-joins v, attach_services-join svcs)

  declare-is_declared :
      (top : Fields) (found : Option Node)
      → find_value networks_key top ≡ found
      → is_declared name (find_value networks_key (declare name top found).0) ≡ true
  declare-is_declared top none h =
      rw
        (find_value-add_field networks_key []
          (mapping (field (plain name) (external_network name) end)) top h (beq_self networks_key))
        (rw (find_value_one name (external_network name)))
  declare-is_declared top (some (scalar tag value)) h = rw h
  declare-is_declared top (some (sequence items)) h = rw h
  declare-is_declared top (some alias) h = rw h
  declare-is_declared top (some (mapping nets)) h = elim (Option-cases (find_value name nets)) [
    | inr (v, there) ↦ rw there (rw (h, there))
    | inl missing ↦ rw missing (
        rw (
          find_value-put_value networks_key (mapping nets)
              (mapping (add_field (plain name) (external_network name) nets)) top h,
          find_value-add_field name [] (external_network name) nets missing (beq_self name),
        ))
  ]

  declare_if-joins :
      (top svcs : Fields) (changed : Bool)
      → find_value services_key top ≡ some (mapping svcs)
      → (find_value services_key (declare_if name (top, changed, any_attached name svcs)).0
          ≡ some (mapping svcs))
        × ((not (any_attached name svcs)
              || is_declared name (
                  find_value networks_key
                    (declare_if name (top, changed, any_attached name svcs)).0))
            ≡ true)
  unfolding ensure_top_level_network
  declare_if-joins top svcs changed found = elim (Bool-cases (changed || any_attached name svcs)) [
    | inl either ↦ rw either (
      ensure-services name top ∙ found,
      ground (arith, declare-is_declared top (find_value networks_key top) refl),
    )
    | inr neither ↦ rw neither (found, ground (arith, neither))
  ]

  -- After the rewriting the services are the visited ones, every service with an endpoint label names
  -- the network, unless its networks are neither a list nor a mapping; and once some service names it,
  -- the networks of the file are there and declare it, unless they are something else than a mapping,
  -- such as a list.
  pub inject_fields-joins :
      (top svcs : Fields)
      → find_value services_key top ≡ some (mapping svcs)
      → (find_value services_key (inject_fields name top).0
          ≡ some (mapping (attach_services name svcs).0))
        × (all_join name (attach_services name svcs).0 ≡ true)
        × ((not (any_attached name (attach_services name svcs).0)
              || is_declared name (find_value networks_key (inject_fields name top).0))
            ≡ true)
  unfolding inject_fields
  inject_fields-joins top svcs found =
      let (kept, declared) =
        declare_if-joins (put_value services_key (mapping (attach_services name svcs).0) top)
          (attach_services name svcs).0 (attach_services name svcs).1
          (find_value-put_value services_key (mapping svcs) (mapping (attach_services name svcs).0)
            top found) in
      rw found (kept, attach_services-join svcs, declared)
