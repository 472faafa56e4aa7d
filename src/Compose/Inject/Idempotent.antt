-- ===== src/Compose/Inject/Idempotent.antt =====
-- Rewriting a compose file a second time changes nothing.
use simpledeploy.Prelude.{
  Bool, true, false, ◌||◌, Option, none, some, [], ◌≡◌, refl, ap, ◌∙◌, arith, Bool-cases,
  Option-cases, inl, inr, beq_self,
}
use simpledeploy.Prelude.Text.{Text, text_eq, text_beq, codes}
use simpledeploy.Compose.Yaml.{
  Node, scalar, sequence, mapping, alias, Nodes, nil, cons, Fields, end, field, find_value,
  put_value, add_field, add_item, has_item, find_value-put_value, put_value-find_value,
  find_value-put_value_ne, find_value-add_field, find_value-add_field_ne, has_item-add_item,
}
use simpledeploy.Compose.Inject.{
  plain, networks_key, services_key, labels_key, has_label, service_has_endpoint_label, attach_to,
  attach_service_network, visit_service, attach_services, any_attached, external_network, declare,
  ensure_top_level_network, visit_all, declare_if, inject_fields,
}

-- A pair of a value and whether it changed, and that the step would not change it again.
abbrev pub Settles {ℓ} : {A : Type ℓ} → (A → A × Bool) → A → Type ℓ
Settles step x = step (step x).0 ≡ ((step x).0, false)

module _ (name : Text) where
  pub has_item-default :
      has_item name (cons (plain (codes "default")) (cons (plain name) nil)) ≡ true
  unfolding has_item
  has_item-default = ground (arith, beq_self name)

  pub find_value_one : (v : Node) → find_value name (field (plain name) v end) ≡ some v
  unfolding find_value
  find_value_one v = rw (beq_self name)

  attach_stays :
      (svc : Fields) (items : Nodes)
      → find_value networks_key svc ≡ some (sequence items)
      → has_item name items ≡ true
      → attach_service_network name svc ≡ (svc, false)
  unfolding attach_service_network
  attach_stays svc items found there = rw (found, there)

  attach_stays_named :
      (svc nets : Fields) (v : Node)
      → find_value networks_key svc ≡ some (mapping nets)
      → find_value name nets ≡ some v
      → attach_service_network name svc ≡ (svc, false)
  unfolding attach_service_network
  attach_stays_named svc nets v found there = rw (found, there)

  attach_to-settles :
      (svc : Fields) (found : Option Node)
      → find_value networks_key svc ≡ found
      → attach_service_network name (attach_to name svc found).0
        ≡ ((attach_to name svc found).0, false)
  attach_to-settles svc none h =
      attach_stays _ _ (find_value-add_field networks_key [] _ svc h (beq_self networks_key))
        has_item-default
  attach_to-settles svc (some (scalar tag value)) h = unfold attach_service_network in rw h
  attach_to-settles svc (some alias) h = unfold attach_service_network in rw h
  attach_to-settles svc (some (sequence items)) h = elim (Bool-cases (has_item name items)) [
    | inl there ↦ rw there (attach_stays svc items h there)
    | inr missing ↦ rw missing (
        attach_stays _ (add_item (plain name) items)
          (find_value-put_value networks_key (sequence items) _ svc h)
          (has_item-add_item name [] items (beq_self name)))
  ]
  attach_to-settles svc (some (mapping nets)) h = elim (Option-cases (find_value name nets)) [
    | inr (v, there) ↦ rw there (attach_stays_named svc nets v h there)
    | inl missing ↦ rw missing (
        attach_stays_named _ (add_field (plain name) (mapping end) nets) (mapping end)
          (find_value-put_value networks_key (mapping nets) _ svc h)
          (find_value-add_field name [] (mapping end) nets missing (beq_self name)))
  ]

  attach_service_network-Settles : (svc : Fields) → Settles (attach_service_network name) svc
  unfolding attach_service_network
  attach_service_network-Settles svc = attach_to-settles svc (find_value networks_key svc) refl

  -- The labels of the service stay.
  attach_to-labels :
      (svc : Fields) (found : Option Node)
      → find_value labels_key (attach_to name svc found).0 ≡ find_value labels_key svc
  unfolding text_beq
  attach_to-labels svc none = find_value-add_field_ne labels_key networks_key [] _ svc refl
  attach_to-labels svc (some (scalar tag value)) = refl
  attach_to-labels svc (some alias) = refl
  attach_to-labels svc (some (sequence items)) = elim (Bool-cases (has_item name items)) [
    | inl there ↦ rw there
    | inr missing ↦ rw missing (find_value-put_value_ne labels_key networks_key _ svc refl)
  ]
  attach_to-labels svc (some (mapping nets)) = elim (Option-cases (find_value name nets)) [
    | inr (v, there) ↦ rw there
    | inl missing ↦ rw missing (find_value-put_value_ne labels_key networks_key _ svc refl)
  ]

  pub has_label-attached :
      (svc : Fields)
      → service_has_endpoint_label (attach_service_network name svc).0
        ≡ service_has_endpoint_label svc
  unfolding service_has_endpoint_label attach_service_network
  has_label-attached svc = ap has_label (attach_to-labels svc (find_value networks_key svc))

  visit_service-Settles : (v : Node) → Settles (visit_service name) v
  visit_service-Settles (scalar tag value) = refl
  visit_service-Settles (sequence items) = refl
  visit_service-Settles alias = refl
  visit_service-Settles (mapping svc) = elim (Bool-cases (service_has_endpoint_label svc)) [
    | inl labelled ↦
        rw labelled (rw (has_label-attached svc, labelled, attach_service_network-Settles svc))
    | inr other ↦ rw other (rw other)
  ]

  attach_services-Settles : (svcs : Fields) → Settles (attach_services name) svcs
  unfolding attach_services
  attach_services-Settles end = refl
  attach_services-Settles (field k v svcs) =
      rw (visit_service-Settles v, attach_services-Settles svcs)

  declare-settles :
      (top : Fields) (found : Option Node)
      → find_value networks_key top ≡ found
      → ensure_top_level_network name (declare name top found).0
        ≡ ((declare name top found).0, false)
  unfolding ensure_top_level_network
  declare-settles top none h =
      rw
        (find_value-add_field networks_key []
          (mapping (field (plain name) (external_network name) end)) top h (beq_self networks_key))
        (rw (find_value_one (external_network name)))
  declare-settles top (some (scalar tag value)) h = rw h
  declare-settles top (some (sequence items)) h = rw h
  declare-settles top (some alias) h = rw h
  declare-settles top (some (mapping nets)) h = elim (Option-cases (find_value name nets)) [
    | inr (v, there) ↦ rw there (rw (h, there))
    | inl missing ↦ rw missing (
        rw (
          find_value-put_value networks_key (mapping nets) _ top h,
          find_value-add_field name [] (external_network name) nets missing (beq_self name),
        ))
  ]

  ensure_top_level_network-Settles : (top : Fields) → Settles (ensure_top_level_network name) top
  unfolding ensure_top_level_network
  ensure_top_level_network-Settles top = declare-settles top (find_value networks_key top) refl

  pub declare-services :
      (top : Fields) (found : Option Node)
      → find_value services_key (declare name top found).0 ≡ find_value services_key top
  unfolding text_beq
  declare-services top none = find_value-add_field_ne services_key networks_key [] _ top refl
  declare-services top (some (scalar tag value)) = refl
  declare-services top (some (sequence items)) = refl
  declare-services top (some alias) = refl
  declare-services top (some (mapping nets)) = elim (Option-cases (find_value name nets)) [
    | inr (v, there) ↦ rw there
    | inl missing ↦ rw missing (find_value-put_value_ne services_key networks_key _ top refl)
  ]

  pub ensure-services :
      (top : Fields)
      → find_value services_key (ensure_top_level_network name top).0 ≡ find_value services_key top
  unfolding ensure_top_level_network
  ensure-services top = declare-services top (find_value networks_key top)

  -- Services that were visited are left as they are.
  visit_all-settled :
      (top svcs : Fields)
      → find_value services_key top ≡ some (mapping svcs)
      → attach_services name svcs ≡ (svcs, false)
      → visit_all name top (find_value services_key top) ≡ (top, false, any_attached name svcs)
  visit_all-settled top svcs found settled =
      rw found (rw (settled, put_value-find_value services_key (mapping svcs) top found))

  inject_fields-settled :
      (top svcs : Fields)
      → find_value services_key top ≡ some (mapping svcs)
      → attach_services name svcs ≡ (svcs, false)
      → (any_attached name svcs ≡ true → ensure_top_level_network name top ≡ (top, false))
      → inject_fields name top ≡ (top, false)
  unfolding inject_fields
  inject_fields-settled top svcs found settled declared =
      ap (declare_if name) (visit_all-settled top svcs found settled)
      ∙ elim (Bool-cases (any_attached name svcs)) [
        | inl attached ↦ rw attached (rw (declared attached))
        | inr alone ↦ rw alone
      ]

  declare_if-settles :
      (top svcs : Fields) (changed : Bool)
      → find_value services_key top ≡ some (mapping svcs)
      → attach_services name svcs ≡ (svcs, false)
      → inject_fields name (declare_if name (top, changed, any_attached name svcs)).0
        ≡ ((declare_if name (top, changed, any_attached name svcs)).0, false)
  declare_if-settles top svcs changed found settled =
      elim (Bool-cases (changed || any_attached name svcs)) [
        | inl either ↦ rw either (
            inject_fields-settled (ensure_top_level_network name top).0 svcs
              (ensure-services top ∙ found) settled
              (λ attached. ensure_top_level_network-Settles top))
        | inr neither ↦ rw neither (
            inject_fields-settled top svcs found settled
              (λ attached. ground (arith, neither, attached)))
      ]

  visit_all-settles :
      (top : Fields) (found : Option Node)
      → find_value services_key top ≡ found
      → inject_fields name (declare_if name (visit_all name top found)).0
        ≡ ((declare_if name (visit_all name top found)).0, false)
  visit_all-settles top none h = unfold inject_fields in rw h
  visit_all-settles top (some (scalar tag value)) h = unfold inject_fields in rw h
  visit_all-settles top (some (sequence items)) h = unfold inject_fields in rw h
  visit_all-settles top (some alias) h = unfold inject_fields in rw h
  visit_all-settles top (some (mapping svcs)) h =
      declare_if-settles (put_value services_key (mapping (attach_services name svcs).0) top)
        (attach_services name svcs).0 (attach_services name svcs).1
        (find_value-put_value services_key (mapping svcs) _ top h) (attach_services-Settles svcs)

  -- Whatever the file holds, injecting the network a second time finds nothing to change.
  pub inject_fields-Settles : (top : Fields) → Settles (inject_fields name) top
  unfolding inject_fields
  inject_fields-Settles top = visit_all-settles top (find_value services_key top) refl
