-- ===== src/Proxy/Claim/First.antt =====
-- The first slug of the apps that have a domain, and the list of owners.
use simpledeploy.Prelude.{
  ℕ, ◌≡◌, ◌∙◌, sym, refl, arith, true, false, Option, none, some, List, [], ◌∷◌, ltb, ◌==◌,
  Bool-cases, Option-cases, inl, inr, beq_self, All, nat_eq,
}
use simpledeploy.Prelude.Text.{
  Text, text_eq, text_beq_iff, text_lt_irrefl, text_lt_trans, text_lt_total,
}
use simpledeploy.Prelude.Dict.{Dict, lookup, lookup-nil, IsMap, insert-IsMap}
use simpledeploy.Prelude.Sort.{
  StrictWeak, sort_stable, IsSorted, sort_stable-IsSorted, sort_stable-All, All-sort_stable,
}
use simpledeploy.Proxy.Claim.{
  Apps, apps_at, lower_id, slug_less, first_slug, choose_owner, add_owner, assign_owners,
}

slug_less_irrefl : (p : Text × ℕ) → slug_less p p ≡ false
unfolding slug_less
slug_less_irrefl (s, i) = ground (arith, text_lt_irrefl s)

slug_less_asym : (p q : Text × ℕ) → slug_less p q ≡ true → slug_less q p ≡ false
unfolding slug_less
slug_less_asym (s, i) (t, j) h = ground (arith, text_lt_trans s t s, text_lt_irrefl s)

slug_less_neg_trans :
    (p q r : Text × ℕ) → slug_less p q ≡ false → slug_less q r ≡ false → slug_less p r ≡ false
unfolding slug_less
slug_less_neg_trans (s, i) (t, j) (u, k) h g =
    ground (arith, text_lt_total s t, text_lt_trans t s u)

slug_less-StrictWeak : StrictWeak slug_less
slug_less-StrictWeak = record { asym = slug_less_asym; neg_trans = slug_less_neg_trans }

-- Every pair that a map gives is in its list.
lookup-All :
    (P : Text × ℕ → Type 0) (apps : Apps) (k : Text) (v : ℕ)
    → All P apps
    → lookup k apps ≡ some v
    → P (k, v)
unfolding lookup
lookup-All P [] k v h e = cc
lookup-All P ((j, w) ∷ apps) k v (hp, h) e = elim (Bool-cases (j == k)) [
  | inl same ↦
      let at_k = (text_beq_iff j k).0 same in
      let at_v : w ≡ v = ground arith in rw (← at_k, ← at_v) hp
  | inr other ↦ lookup-All P apps k v h (rw other at e)
]

-- In a map, every pair of the list is what the map gives.
All-weaken :
    (P Q : Text × ℕ → Type 0) (apps : Apps) → ((p : Text × ℕ) → P p → Q p) → All P apps → All Q apps
All-weaken P Q [] f h = tt
All-weaken P Q (p ∷ apps) f (hp, h) = (f p hp, All-weaken P Q apps f h)

All-lookup : (apps : Apps) → IsMap apps → All (λ p. lookup p.0 apps ≡ some p.1) apps
unfolding lookup
All-lookup [] h = tt
All-lookup ((j, w) ∷ apps) (hj, h) = (
  rw (beq_self j),
  All-weaken (λ p. lookup p.0 apps ≡ some p.1) (λ p. lookup p.0 ((j, w) ∷ apps) ≡ some p.1) apps
      (λ p e. ground (arith, hj, e, text_beq_iff j p.0)) (All-lookup apps h),
)

-- The first of the sorted slugs claims the domain, and no other claim has a lower AppID, or the same
-- with a lower slug.
abbrev pub IsFirst : Apps → Text → Type 0
IsFirst apps o =
    (id : ℕ) × (lookup o apps ≡ some id)
    × ((s : Text) (i : ℕ) → lookup s apps ≡ some i → slug_less (s, i) (o, id) ≡ false)

sorted-IsFirst :
    (apps : Apps) (sorted : List (Text × ℕ)) (k : Text) (v : ℕ)
    → IsSorted slug_less sorted
    → All (λ p. lookup p.0 apps ≡ some p.1) sorted
    → ((P : Text × ℕ → Type 0) → All P sorted → All P apps)
    → lookup k apps ≡ some v
    → (o : Text) × (first_slug sorted ≡ some o) × IsFirst apps o
sorted-IsFirst apps [] k v s h back e = absurd (lookup-All (λ p. ⊥) apps k v (back (λ p. ⊥) tt) e)
sorted-IsFirst apps ((o, id) ∷ ps) k v (low, s) (ho, h) back e = (
  o,
  refl,
  (
    id,
    ho,
    λ t i et.
        lookup-All (λ p. slug_less p (o, id) ≡ false) apps t i
          (back (λ p. slug_less p (o, id) ≡ false) (slug_less_irrefl (o, id), low)) et,
  ),
)

pub first_slug-IsFirst :
    (apps : Apps) (k : Text) (v : ℕ)
    → IsMap apps
    → lookup k apps ≡ some v
    → (o : Text) × (first_slug (sort_stable slug_less apps) ≡ some o) × IsFirst apps o
first_slug-IsFirst apps k v m e =
    sorted-IsFirst apps (sort_stable slug_less apps) k v
      (sort_stable-IsSorted slug_less slug_less-StrictWeak apps)
      (sort_stable-All slug_less (λ p. lookup p.0 apps ≡ some p.1) apps (All-lookup apps m))
      (λ P h. All-sort_stable slug_less P apps h) e

abbrev chosen : Option Text → Option Apps → Option Text
chosen prev none = none
chosen prev (some apps) = choose_owner prev apps

assign_none :
    (prev : Dict Text Text) (key : Text) (m : Dict Text Apps)
    → lookup key m ≡ none
    → lookup key (assign_owners prev m) ≡ none
unfolding assign_owners lookup
assign_none prev key [] h = refl
assign_none prev key ((j, apps) ∷ m) h = ground (arith, assign_none prev key m)

add_hit :
    (j : Text) (o : Option Text) (owners : Dict Text Text)
    → lookup j owners ≡ none
    → lookup j (add_owner j o owners) ≡ o
unfolding lookup
add_hit j none owners h = h
add_hit j (some o) owners h = rw (beq_self j)

add_miss :
    (j key : Text) (o : Option Text) (owners : Dict Text Text)
    → (j == key) ≡ false
    → lookup key (add_owner j o owners) ≡ lookup key owners
unfolding lookup
add_miss j key none owners h = refl
add_miss j key (some o) owners h = rw h

pub lookup-assign :
    (prev : Dict Text Text) (key : Text) (m : Dict Text Apps)
    → IsMap m
    → lookup key (assign_owners prev m) ≡ chosen (lookup key prev) (lookup key m)
unfolding assign_owners lookup
lookup-assign prev key [] h = refl
lookup-assign prev key ((j, apps) ∷ m) (hj, h) =
    let owner = choose_owner (lookup j prev) apps in
    elim (Bool-cases (j == key)) [
      | inl same ↦
          rw (← (text_beq_iff j key).0 same)
            (add_hit j owner (assign_owners prev m) (assign_none prev j m hj) ∙ rw (beq_self j))
      | inr other ↦
          add_miss j key owner (assign_owners prev m) other ∙ lookup-assign prev key m h ∙ rw other
    ]

abbrev pub InnerMaps : Dict Text Apps → Type 0
InnerMaps m = (key : Text) (apps : Apps) → lookup key m ≡ some apps → IsMap apps

pub no-InnerMaps : InnerMaps []
no-InnerMaps key apps e = let none_there : none ≡ some apps = sym (lookup-nil key) ∙ e in cc

pub lower_id-IsMap :
    (slug : Text) (id : ℕ) (apps : Apps) (o : Option ℕ)
    → IsMap apps
    → IsMap (lower_id slug id apps o)
lower_id-IsMap slug id apps none h = insert-IsMap slug id apps h
lower_id-IsMap slug id apps (some old) h = elim (Bool-cases (ltb id old)) [
  | inl e ↦ rw e (insert-IsMap slug id apps h)
  | inr e ↦ rw e h
]

pub apps_at-IsMap : (key : Text) (m : Dict Text Apps) → InnerMaps m → IsMap (apps_at (lookup key m))
apps_at-IsMap key m h = elim (Option-cases (lookup key m)) [
  | inl e ↦ rw e tt
  | inr (apps, e) ↦ rw e (h key apps e)
]
