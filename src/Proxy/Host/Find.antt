-- ===== src/Proxy/Host/Find.antt =====
-- The domain that a host is given, whatever the order in which Go ranges over the map.
use simpledeploy.Prelude.{
  Bool, true, false, ◌&&◌, ◌≡◌, arith, inl, inr, ◌⊎◌, sym, ◌∙◌, Bool-cases, Option-cases, ◌==◌,
  Option, none, some, [], ◌∷◌, if◌then◌else◌,
}
use simpledeploy.Prelude.Text.{Text, text_eq, text_beq_iff}
use simpledeploy.Prelude.Dict.{Dict, lookup}
use simpledeploy.Proxy.Host.{domain_less, is_candidate, beats, best_wildcard, find_host}
use simpledeploy.Proxy.Host.Order.{
  domain_less_irrefl, domain_less_trans, domain_less_total, domain_less_asym,
}

-- `k` is no worse than what is held.
abbrev NotBeaten : Text → Option Text → Type 0
NotBeaten k none = Unit
NotBeaten k (some b) = domain_less b k ≡ false

NotBeaten-step :
    (j k : Text) (acc : Option Text) (c : Bool)
    → NotBeaten k (if c && beats j acc then some j else acc)
    → NotBeaten k acc × (c ≡ true → domain_less j k ≡ false)
NotBeaten-step j k none c h = ground arith
NotBeaten-step j k (some a) c h = ground (
  arith,
  domain_less_trans a j k,
  domain_less_trans j k a,
  domain_less_total k a,
  domain_less_trans j a k,
  domain_less_irrefl j,
  domain_less_asym j a,
  domain_less_asym j k,
)

none_step :
    (j : Text) (acc : Option Text) (c : Bool)
    → (if c && beats j acc then some j else acc) ≡ none
    → (acc ≡ none) × (c ≡ false)
none_step j none c h = ground arith
none_step j (some a) c h = ground arith

module _ {ℓ} {V : Type ℓ} (host : Text) where
  -- The held wildcard is one that was held, or a candidate of the map.
  best-mem :
      (m : Dict Text V) (acc : Option Text) (k : Text)
      → best_wildcard host m acc ≡ some k
      → (acc ≡ some k) ⊎ ((is_candidate host k ≡ true) × ((v : V) × (lookup k m ≡ some v)))
  unfolding best_wildcard lookup
  best-mem [] acc k h = inl h
  best-mem ((j, w) ∷ m) acc k h =
      let c = is_candidate host j && beats j acc in
      elim (best-mem m (if c then some j else acc) k h) [
        | inl e ↦ elim (Bool-cases c) [
          | inl t ↦
              let q : some j ≡ some k = rw t at e in
              let same : j ≡ k = cc in inr (ground arith, (w, rw ((text_beq_iff j k).1 same)))
          | inr f ↦ inl (rw f at e)
        ]
        | inr q ↦ elim (Bool-cases (j == k)) [
          | inl same ↦ inr (q.0, (w, rw same))
          | inr other ↦ inr (q.0, (q.1.0, rw other q.1.1))
        ]
      ]

  best-least :
      (m : Dict Text V) (acc : Option Text) (k : Text)
      → best_wildcard host m acc ≡ some k
      → NotBeaten k acc
        × ((j : Text) (v : V)
            → lookup j m ≡ some v
            → is_candidate host j ≡ true
            → domain_less j k ≡ false)
  unfolding best_wildcard lookup
  best-least [] acc k h = (rw h (domain_less_irrefl k), λ j v e. cc)
  best-least ((j, w) ∷ m) acc k h =
      let (hb, hm) =
        best-least m (if is_candidate host j && beats j acc then some j else acc) k h in
      let (ha, hj) = NotBeaten-step j k acc (is_candidate host j) hb in
      (
        ha,
        λ i v e c. elim (Bool-cases (j == i)) [
          | inl same ↦ let at_i = (text_beq_iff j i).0 same in ground (arith, at_i)
          | inr other ↦ hm i v (rw other at e) c
        ],
      )

  pub best-none :
      (m : Dict Text V) (acc : Option Text)
      → best_wildcard host m acc ≡ none
      → (acc ≡ none) × ((j : Text) (v : V) → lookup j m ≡ some v → is_candidate host j ≡ false)
  unfolding best_wildcard lookup
  best-none [] acc h = (h, λ j v e. cc)
  best-none ((j, w) ∷ m) acc h =
      let (e, hm) = best-none m (if is_candidate host j && beats j acc then some j else acc) h in
      let (gone, off) = none_step j acc (is_candidate host j) e in
      (
        gone,
        λ i v f. elim (Bool-cases (j == i)) [
          | inl same ↦ let at_i = (text_beq_iff j i).0 same in cc (off)
          | inr other ↦ hm i v (rw other at f)
        ],
      )

  -- `k` is a wildcard of the map that matches `host`, and none that does is more specific.
  abbrev pub IsBest : Dict Text V → Text → Type ℓ
  IsBest m k =
      (is_candidate host k ≡ true)
      × ((v : V) × (lookup k m ≡ some v))
      × ((j : Text) (v : V)
          → lookup j m ≡ some v
          → is_candidate host j ≡ true
          → domain_less j k ≡ false)

  pub best_wildcard-IsBest :
      (m : Dict Text V) (k : Text) → best_wildcard host m none ≡ some k → IsBest m k
  best_wildcard-IsBest m k h = elim (best-mem m none k h) [
    | inl e ↦ cc
    | inr q ↦ (q.0, q.1, (best-least m none k h).1)
  ]

  pub IsBest-unique : (m : Dict Text V) (k k' : Text) → IsBest m k → IsBest m k' → k ≡ k'
  IsBest-unique m k k' (ck, (v, lk), min) (ck', (v', lk'), min') =
      domain_less_total k k' (min' k v lk ck) (min k' v' lk' ck')

  abbrev SameMap : Dict Text V → Dict Text V → Type ℓ
  SameMap m m' = (k : Text) → lookup k m ≡ lookup k m'

  IsBest-same : (m m' : Dict Text V) (k : Text) → SameMap m m' → IsBest m k → IsBest m' k
  IsBest-same m m' k same (ck, (v, lk), min) =
      (ck, (v, sym (same k) ∙ lk), λ j w lj. min j w (same j ∙ lj))

  best_same :
      (m m' : Dict Text V) → SameMap m m' → best_wildcard host m none ≡ best_wildcard host m' none
  best_same m m' same = elim (Option-cases (best_wildcard host m none)) [
    | inl e ↦ elim (Option-cases (best_wildcard host m' none)) [
      | inl e' ↦ e ∙ sym e'
      | inr (k, e') ↦
          let (c, (v, l), min) = best_wildcard-IsBest m' k e' in
          let off = (best-none m none e).1 k v (same k ∙ l) in cc
    ]
    | inr (k, e) ↦ elim (Option-cases (best_wildcard host m' none)) [
      | inl e' ↦
          let (c, (v, l), min) = best_wildcard-IsBest m k e in
          let off = (best-none m' none e').1 k v (sym (same k) ∙ l) in cc
      | inr (k', e') ↦
          let best = IsBest-same m m' k same (best_wildcard-IsBest m k e) in
          let one = IsBest-unique m' k k' best (best_wildcard-IsBest m' k' e') in cc
    ]
  ]

  -- Go ranges over a map in any order: two maps with the same entries, listed in any order, give a
  -- host the same value.
  pub find_host_same : (m m' : Dict Text V) → SameMap m m' → find_host m host ≡ find_host m' host
  unfolding find_host
  find_host_same m m' same =
      let best = best_same m m' same in
      elim (Option-cases (best_wildcard host m' none)) [
        | inl e ↦ ground (arith, same host, best, e)
        | inr (k, e) ↦ ground (arith, same host, best, e, same k)
      ]
