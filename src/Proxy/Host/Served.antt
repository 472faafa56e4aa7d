-- ===== src/Proxy/Host/Served.antt =====
-- What a registry answers for a host: the first match of its domains in the route order.
use simpledeploy.Prelude.{
  Bool, true, false, ◌||◌, ◌≡◌, ◌≤◌, arith, inl, inr, ◌⊎◌, refl, ap, ◌∙◌, Bool-cases, Option-cases,
  ◌==◌, Option, none, some, List, [], ◌∷◌, if◌then◌else◌, All, nat_eq,
}
use simpledeploy.Prelude.Text.{Text, text_eq, text_beq_iff, contains_byte, count_byte}
use simpledeploy.Prelude.Dict.{Dict, lookup}
use simpledeploy.Prelude.Sort.{IsSorted}
use simpledeploy.Proxy.Host.{
  star, host_matches, domain_less, is_candidate, best_wildcard, read_key, find_host,
}
use simpledeploy.Proxy.Host.Order.{domain_less_irrefl}
use simpledeploy.Proxy.Host.Find.{IsBest, best_wildcard-IsBest, best-none, IsBest-unique}

-- The first domain of a list that the host matches.
unfoldable pub first_match : Text → List Text → Option Text
first_match host [] = none
first_match host (d ∷ ds) = if host_matches d host then some d else first_match host ds

unfoldable pub listed : Text → List Text → Bool
listed d [] = false
listed d (x ∷ xs) = x == d || listed d xs

pub All-listed {ℓ} :
    (P : Text → Type ℓ) (d : Text) (ds : List Text) → All P ds → listed d ds ≡ true → P d
unfolding listed
All-listed P d [] h l = cc
All-listed P d (x ∷ xs) (px, h) l = elim (Bool-cases (x == d)) [
  | inl e ↦ rw (← (text_beq_iff x d).0 e) px
  | inr e ↦ All-listed P d xs h (rw e at l)
]

first_match-some :
    (host : Text) (ds : List Text) (k : Text)
    → IsSorted domain_less ds
    → first_match host ds ≡ some k
    → (host_matches k host ≡ true)
      × (listed k ds ≡ true)
      × ((d : Text) → listed d ds ≡ true → host_matches d host ≡ true → domain_less d k ≡ false)
unfolding first_match listed
first_match-some host [] k h e = cc
first_match-some host (x ∷ ds) k (hx, h) e = elim (Bool-cases (host_matches x host)) [
  | inl m ↦
      let at_k : x ≡ k = ground arith in
      (
        ground arith,
        ground (arith, text_beq_iff x k),
        λ d l md. elim (Bool-cases (x == d)) [
          | inl e ↦ let at_d = (text_beq_iff x d).0 e in ground (arith, domain_less_irrefl d)
          | inr e ↦ rw (← at_k) (All-listed (λ y. domain_less y x ≡ false) d ds hx (rw e at l))
        ],
      )
  | inr n ↦
      let (mk, lk, least) = first_match-some host ds k h (rw n at e) in
      (
        mk,
        ground arith,
        λ d l md. elim (Bool-cases (x == d)) [
          | inl e ↦ let at_d = (text_beq_iff x d).0 e in cc
          | inr e ↦ least d (rw e at l) md
        ],
      )
]

first_match-none :
    (host : Text) (ds : List Text)
    → first_match host ds ≡ none
    → (d : Text) → listed d ds ≡ true
    → host_matches d host ≡ false
unfolding first_match listed
first_match-none host [] e d l = cc
first_match-none host (x ∷ ds) e d l =
    ground (arith, first_match-none host ds (ground arith) d, text_beq_iff x d)

count-star : (s : Text) → contains_byte star s ≡ true → 1 ≤ count_byte star s
unfolding contains_byte count_byte
count-star [] h = cc
count-star (c ∷ s) h = ground (arith, count-star s)

no_star : (s : Text) → contains_byte star s ≡ false → count_byte star s ≡ 0
unfolding contains_byte count_byte
no_star [] h = refl
no_star (c ∷ s) h = ground (arith, no_star s)

exact_first :
    (host k : Text)
    → contains_byte star host ≡ false
    → host_matches k host ≡ true
    → domain_less host k ≡ false
    → k ≡ host
unfolding host_matches domain_less
exact_first host k plain m h = ground (arith, no_star host plain, count-star k, text_beq_iff k host)

exact_matches : (host : Text) → contains_byte star host ≡ false → host_matches host host ≡ true
unfolding host_matches
exact_matches host plain = ground (arith, text_beq_iff host host)

match_splits :
    (host k : Text) → host_matches k host ≡ true → (k ≡ host) ⊎ (is_candidate host k ≡ true)
unfolding host_matches is_candidate
match_splits host k m = elim (Bool-cases (contains_byte star k)) [
  | inl e ↦ inr (ground arith)
  | inr e ↦ inl (ground (arith, text_beq_iff k host))
]

candidate_matches : (host k : Text) → is_candidate host k ≡ true → host_matches k host ≡ true
unfolding is_candidate
candidate_matches host k h = ground arith

module _ {ℓ} {V : Type ℓ} (m : Dict Text V) (ds : List Text) where
  -- `ds` lists the keys of the map.
  abbrev pub Keys : Type ℓ
  Keys =
      ((d : Text) → listed d ds ≡ true → (v : V) × (lookup d m ≡ some v))
      × ((d : Text) (v : V) → lookup d m ≡ some v → listed d ds ≡ true)

  module _ (host k : Text) (plain : contains_byte star host ≡ false)
      (sorted : IsSorted domain_less ds) (keys : Keys) (first : first_match host ds ≡ some k) where
    first-exact : (v : V) → lookup host m ≡ some v → k ≡ host
    first-exact v exact =
        let (mk, lk, least) = first_match-some host ds k sorted first in
        exact_first host k plain mk (least host (keys.1 host v exact) (exact_matches host plain))

    first-best : lookup host m ≡ none → best_wildcard host m none ≡ some k
    first-best no_exact =
        let (mk, lk, least) = first_match-some host ds k sorted first in
        let (v, found) = keys.0 k lk in
        elim (match_splits host k mk) [
          | inl same ↦ let found_host = rw same at found in cc
          | inr ck ↦ elim (Option-cases (best_wildcard host m none)) [
            | inl e ↦ let off = (best-none host m none e).1 k v found in cc
            | inr (k', e) ↦
                let is_best : IsBest host m k = (
                  ck,
                  (v, found),
                  λ j w lj cj. least j (keys.1 j w lj) (candidate_matches host j cj),
                ) in
                e ∙ ap some (IsBest-unique host m k' k (best_wildcard-IsBest host m k' e) is_best)
          ]
        ]

  -- For a host without "*", and the registered domains as a list in the route order, none left out and
  -- none added, `lookupHost` finds the value of the first of them that the host matches. A domain with
  -- a route but without an entry of its own is not in that list.
  pub find_host-first_match :
      (host : Text)
      → contains_byte star host ≡ false
      → IsSorted domain_less ds
      → Keys
      → find_host m host ≡ read_key m (first_match host ds)
  unfolding find_host
  find_host-first_match host plain sorted (has, all_keys) =
      elim (Option-cases (first_match host ds)) [
        | inl e ↦ elim (Option-cases (lookup host m)) [
          | inl no_exact ↦ elim (Option-cases (best_wildcard host m none)) [
            | inl no_best ↦ ground (arith, e, no_exact, no_best)
            | inr (k, best) ↦
                let (ck, (v, lk), least) = best_wildcard-IsBest host m k best in
                let off = first_match-none host ds e k (all_keys k v lk) in
                let on = candidate_matches host k ck in cc
          ]
          | inr (v, exact) ↦
              let off = first_match-none host ds e host (all_keys host v exact) in
              let on = exact_matches host plain in cc
        ]
        | inr (k, e) ↦ elim (Option-cases (lookup host m)) [
          | inl no_exact ↦
              let best = first-best host k plain sorted (has, all_keys) e no_exact in
              ground (arith, e, no_exact, best)
          | inr (v, exact) ↦
              let same = first-exact host k plain sorted (has, all_keys) e v exact in
              ground (arith, e, exact, same)
        ]
      ]
