-- ===== src/Proxy/Claim/Owner.antt =====
-- Who owns a domain.
use simpledeploy.Prelude.{
  ℕ, ◌≡◌, ◌∙◌, sym, ap, refl, arith, true, false, ◌&&◌, Option, none, some, List, [], ◌∷◌, ◌==◌,
  Bool-cases, Option-cases, inl, inr, beq_self, nat_eq,
}
use simpledeploy.Prelude.Text.{Text, text_eq, text_beq_iff}
use simpledeploy.Prelude.Dict.{Dict, lookup, lookup-nil, lookup-insert}
use simpledeploy.Prelude.Sort.{sort_stable}
use simpledeploy.Proxy.Route.{Route}
use simpledeploy.Proxy.Claim.{
  Apps, apps_at, lower_id, slug_less, first_slug, choose_owner, assign_owners, is_owner, claim,
  claim_all, keep_owned, claim_domains,
}
use simpledeploy.Proxy.Claim.Lowest.{
  has_route, lowest_id, lookup-claim_all, claim_all-IsMap, lowest_id-has_route,
}
use simpledeploy.Proxy.Claim.First.{
  first_slug-IsFirst, lookup-assign, InnerMaps, no-InnerMaps, lower_id-IsMap, apps_at-IsMap,
}

module _ (norm : Text → Text) where
  claim-InnerMaps : (m : Dict Text Apps) (r : Route) → InnerMaps m → InnerMaps (claim norm m r)
  unfolding claim
  claim-InnerMaps m r h key apps e =
      let apps' = apps_at (lookup (norm r.domain) m) in
      let lowered = lower_id r.app_slug r.app_id apps' (lookup r.app_slug apps') in
      elim (Bool-cases (norm r.domain == key)) [
        | inl same ↦
            let at_apps : lowered ≡ apps =
              ground (arith, lookup-insert (norm r.domain) key lowered m) in
            rw (← at_apps)
              (lower_id-IsMap r.app_slug r.app_id apps' _ (apps_at-IsMap (norm r.domain) m h))
        | inr other ↦ h key apps (ground (arith, lookup-insert (norm r.domain) key lowered m))
      ]

  claim_all-InnerMaps :
      (rs : List Route) (m : Dict Text Apps) → InnerMaps m → InnerMaps (claim_all norm m rs)
  unfolding claim_all
  claim_all-InnerMaps [] m h = h
  claim_all-InnerMaps (r ∷ rs) m h = claim_all-InnerMaps rs (claim norm m r) (claim-InnerMaps m r h)

  module _ (rs : List Route) (prev : Dict Text Text) (key : Text) where
    abbrev pub claimed : Apps
    claimed = apps_at (lookup key (claim_all norm [] rs))

    abbrev pub owner : Option Text
    owner = lookup key (claim_domains norm rs prev).1

    -- What the map of claims says of an app.
    lookup-claimed : (slug : Text) → lookup slug claimed ≡ lowest_id norm key slug rs none
    lookup-claimed slug =
        let all = lookup-claim_all norm key slug rs [] in
        all ∙ ap (lowest_id norm key slug rs) (rw lookup-nil (lookup-nil slug))

    has_route-claimed :
        (slug : Text)
        → has_route norm key slug rs ≡ true
        → (id : ℕ) × (lookup slug claimed ≡ some id)
    has_route-claimed slug h = elim (Option-cases (lookup slug claimed)) [
      | inl e ↦
          let off = (lowest_id-has_route norm key slug rs).0 (sym (lookup-claimed slug) ∙ e) in cc
      | inr q ↦ q
    ]

    claimed-has_route :
        (slug : Text) (id : ℕ) → lookup slug claimed ≡ some id → has_route norm key slug rs ≡ true
    claimed-has_route slug id e = elim (Bool-cases (has_route norm key slug rs)) [
      | inl h ↦ h
      | inr h ↦ let off = lookup-claimed slug ∙ (lowest_id-has_route norm key slug rs).1 h in cc
    ]

    owner-chosen :
        (slug : Text)
        → has_route norm key slug rs ≡ true
        → owner ≡ choose_owner (lookup key prev) claimed
    unfolding claim_domains
    owner-chosen slug h =
        let (id, e) = has_route-claimed slug h in
        elim (Option-cases (lookup key (claim_all norm [] rs))) [
          | inl f ↦ let gone : none ≡ some id = sym (lookup-nil slug) ∙ rw f at e in cc
          | inr (apps, f) ↦
              lookup-assign prev key (claim_all norm [] rs) (claim_all-IsMap norm rs [] tt) ∙ rw f
        ]

    -- The app that owned a domain keeps it as long as it has a route there.
    pub owner-incumbent :
        (o : Text) → lookup key prev ≡ some o → has_route norm key o rs ≡ true → owner ≡ some o
    unfolding choose_owner
    owner-incumbent o before h =
        let (id, e) = has_route-claimed o h in owner-chosen o h ∙ rw (before, e)

    -- `o` has the lowest AppID of the apps on the domain, and the lowest slug of those.
    abbrev pub IsFirstClaim : Text → Type 0
    IsFirstClaim o =
        (id : ℕ) × (lowest_id norm key o rs none ≡ some id)
        × ((s : Text) (i : ℕ)
            → lowest_id norm key s rs none ≡ some i
            → slug_less (s, i) (o, id) ≡ false)

    first-claim :
        (slug : Text)
        → has_route norm key slug rs ≡ true
        → (o : Text) × (first_slug (sort_stable slug_less claimed) ≡ some o) × IsFirstClaim o
    first-claim slug h =
        let (id, e) = has_route-claimed slug h in
        let maps =
          apps_at-IsMap key (claim_all norm [] rs) (claim_all-InnerMaps rs [] no-InnerMaps) in
        let (o, first, (i, lo, least)) = first_slug-IsFirst claimed slug id maps e in
        (o, first, (i, sym (lookup-claimed o) ∙ lo, λ s j f. least s j (lookup-claimed s ∙ f)))

    -- The app that owned the domain, if any, has no route there.
    abbrev pub Vacant : Option Text → Type 0
    Vacant none = Unit
    Vacant (some p) = has_route norm key p rs ≡ false

    Vacant-owner :
        (slug : Text)
        → has_route norm key slug rs ≡ true
        → Vacant (lookup key prev)
        → (o : Text) × (owner ≡ some o) × IsFirstClaim o
    unfolding choose_owner
    Vacant-owner slug h v =
        let (o, first, is_first) = first-claim slug h in
        elim (Option-cases (lookup key prev)) [
          | inl e ↦ (o, owner-chosen slug h ∙ rw e first, is_first)
          | inr (p, e) ↦
              let gone = lookup-claimed p ∙ (lowest_id-has_route norm key p rs).1 (rw e at v) in
              (o, owner-chosen slug h ∙ rw (e, gone) first, is_first)
        ]

    -- A domain whose owner is gone goes to the app with the lowest AppID on it, the lowest slug among
    -- equals, in whatever order the routes come: no app with a claim is below the owner.
    pub owner-Vacant :
        (o s : Text) (id i : ℕ)
        → Vacant (lookup key prev)
        → owner ≡ some o
        → lowest_id norm key o rs none ≡ some id
        → lowest_id norm key s rs none ≡ some i
        → slug_less (s, i) (o, id) ≡ false
    owner-Vacant o s id i v own lo ls =
        let (o', own', (id', lo', least)) =
          Vacant-owner s (claimed-has_route s i (lookup-claimed s ∙ ls)) v in
        let same : o' ≡ o = cc in
        let low' : lowest_id norm key o rs none ≡ some id' = rw (← same) lo' in
        let same_id : id' ≡ id = ground (arith, lo, low') in rw (← same, ← same_id) (least s i ls)

    owner-has_route :
        (slug : Text)
        → has_route norm key slug rs ≡ true
        → (o : Text) × (owner ≡ some o) × (has_route norm key o rs ≡ true)
    owner-has_route slug h = elim (Option-cases (lookup key prev)) [
      | inl e ↦
          let (o, own, (id, low, least)) = Vacant-owner slug h (rw e tt) in
          (o, own, claimed-has_route o id (lookup-claimed o ∙ low))
      | inr (p, e) ↦ elim (Bool-cases (has_route norm key p rs)) [
        | inl there ↦ (p, owner-incumbent p e there, there)
        | inr gone ↦
            let (o, own, (id, low, least)) = Vacant-owner slug h (rw e gone) in
            (o, own, claimed-has_route o id (lookup-claimed o ∙ low))
      ]
    ]

  keep-has_route :
      (owners : Dict Text Text) (key s : Text) (rs : List Route)
      → has_route norm key s (keep_owned norm owners rs)
        ≡ (has_route norm key s rs && is_owner (lookup key owners) s)
  unfolding keep_owned has_route
  keep-has_route owners key s [] = refl
  keep-has_route owners key s (r ∷ rs) =
      elim (Bool-cases (is_owner (lookup (norm r.domain) owners) r.app_slug)) [
        | inl own ↦ rw own (
            ground (
              arith,
              keep-has_route owners key s rs,
              own,
              text_beq_iff (norm r.domain) key,
              text_beq_iff r.app_slug s,
            ))
        | inr not_own ↦ rw not_own (
            ground (
              arith,
              keep-has_route owners key s rs,
              not_own,
              text_beq_iff (norm r.domain) key,
              text_beq_iff r.app_slug s,
            ))
      ]

  -- Every domain that some app has a route on keeps the routes of some app.
  pub claim_domains-has_route :
      (rs : List Route) (prev : Dict Text Text) (key slug : Text)
      → has_route norm key slug rs ≡ true
      → (o : Text) × (has_route norm key o (claim_domains norm rs prev).0 ≡ true)
  unfolding claim_domains
  claim_domains-has_route rs prev key slug h =
      let (o, own, there) = owner-has_route rs prev key slug h in
      let kept = keep-has_route (assign_owners prev (claim_all norm [] rs)) key o rs in
      (o, kept ∙ rw (there, own) (beq_self o))

  -- The routes that are kept on one domain are all of one app: its owner.
  pub claim_domains_owner :
      (rs : List Route) (prev : Dict Text Text) (key s : Text)
      → has_route norm key s (claim_domains norm rs prev).0 ≡ true
      → lookup key (claim_domains norm rs prev).1 ≡ some s
  unfolding claim_domains
  claim_domains_owner rs prev key s h =
      owned (lookup key owners) s (ground (arith, keep-has_route owners key s rs))
    where
      owners : Dict Text Text
      owners = assign_owners prev (claim_all norm [] rs)

      owned : (o : Option Text) (t : Text) → is_owner o t ≡ true → o ≡ some t
      owned none t g = cc
      owned (some o) t g = ap some ((text_beq_iff o t).0 g)
