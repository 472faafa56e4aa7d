-- ===== src/Proxy/Host.antt =====
-- internal/proxy/hostmatch.go: which route domain a request host belongs to.
pub mod Order
pub mod Find
pub mod Served
use simpledeploy.Prelude.{
  ℕ, Bool, true, false, not, ◌&&◌, ◌||◌, Option, none, some, List, [], ◌∷◌, ltb, eqb, if◌then◌else◌,
  ◌==◌, length, nat_eq,
}
use simpledeploy.Prelude.Text.{
  Text, text_eq, text_lt, codes, split, trim_space, contains_byte, count_byte, to_lower,
  trim_prefix, trim_last,
}
use simpledeploy.Prelude.Dict.{Dict, lookup}
use simpledeploy.Net.{Net}

abbrev pub star : ℕ
star = b'*'

unfoldable pub normalize_domain : Net → Text → Text
normalize_domain net s =
    let t = trim_space s in
    let host : Text = elim (net.split_host_port t) [
      | some h ↦ h
      | none ↦ trim_last b']' (trim_prefix t (codes "["))
    ] in
    trim_last b'.' (to_lower host)

-- The loop over the labels; both lists have one length.
unfoldable pub labels_match : List Text → List Text → Bool
labels_match [] hs = true
labels_match (p ∷ ps) [] = false
labels_match (p ∷ ps) (h ∷ hs) = (p == codes "*" || p == h) && labels_match ps hs

unfoldable pub host_matches : Text → Text → Bool
host_matches pattern host =
    if not (contains_byte star pattern)
    then pattern == host
    else if not (length (split b'.' pattern) == length (split b'.' host))
    then false
    else labels_match (split b'.' pattern) (split b'.' host)

unfoldable pub domain_less : Text → Text → Bool
domain_less a b =
    if not (count_byte star a == count_byte star b)
    then ltb (count_byte star a) (count_byte star b)
    else text_lt a b

-- A key that the loop of `lookupHost` considers.
unfoldable pub is_candidate : Text → Text → Bool
is_candidate host k = contains_byte star k && host_matches k host

abbrev pub beats : Text → Option Text → Bool
beats k none = true
beats k (some best) = domain_less k best

-- The loop of `lookupHost`; `best` is `none` while `found` is false.
unfoldable pub best_wildcard {ℓ} : {V : Type ℓ} → Text → Dict Text V → Option Text → Option Text
best_wildcard host [] best = best
best_wildcard host ((k, v) ∷ m) best =
    best_wildcard host m (if is_candidate host k && beats k best then some k else best)

abbrev pub read_key {ℓ} : {V : Type ℓ} → Dict Text V → Option Text → Option V
read_key m none = none
read_key m (some k) = lookup k m

-- `lookupHost` behind its first line, which normalizes the host.
unfoldable pub find_host {ℓ} : {V : Type ℓ} → Dict Text V → Text → Option V
find_host m host = elim (lookup host m) [
  | some v ↦ some v
  | none ↦ read_key m (best_wildcard host m none)
]

unfoldable pub lookup_host {ℓ} : {V : Type ℓ} → Net → Dict Text V → Text → Option V
unfolding find_host
lookup_host net m host = find_host m (normalize_domain net host)
