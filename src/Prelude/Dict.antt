-- ===== src/Prelude/Dict.antt =====
-- A Go map as an association list. A write replaces the pair of its key where it stands, and
-- deleting while ranging over a map is `filter`.
use mathlib.Core.Path.{◌≡◌, refl}
use mathlib.Core.Bool.{Bool, true}
use mathlib.Core.Option.{Option, none, some}
use mathlib.Core.List.{List, [], ◌∷◌}
use native.Mathlib.Omega.{arith}
use simpledeploy.Prelude.Tests.{if◌then◌else◌}
use simpledeploy.Prelude.Key.{Eq, ◌==◌}

abbrev pub Dict {ℓ κ} : Type ℓ → Type κ → Type (ℓ ⊔ κ)
Dict K V = List (K × V)

-- What `filter` keeps of a value that was looked up.
abbrev pub keeping {κ} : {V : Type κ} → (V → Bool) → Option V → Option V
keeping keep none = none
keeping keep (some v) = if keep v then some v else none

module _ {ℓ κ} {K : Type ℓ} {V : Type κ} ⦃e : Eq K⦄ where
  unfoldable pub lookup : K → Dict K V → Option V
  lookup key [] = none
  lookup key ((j, v) ∷ rest) = if j == key then some v else lookup key rest

  unfoldable pub insert : K → V → Dict K V → Dict K V
  insert key new [] = (key, new) ∷ []
  insert key new ((j, old) ∷ rest) =
      if j == key then (key, new) ∷ rest else (j, old) ∷ insert key new rest

  unfoldable pub erase : K → Dict K V → Dict K V
  erase k [] = []
  erase k ((j, v) ∷ m) = let rest = erase k m in if j == k then rest else (j, v) ∷ rest

  pub lookup-nil : (k : K) → lookup k [] ≡ none
  unfolding lookup
  lookup-nil k = refl

  pub lookup-insert :
      (k j : K) (new : V) (m : Dict K V)
      → lookup j (insert k new m) ≡ (if k == j then some new else lookup j m)
  unfolding insert lookup
  lookup-insert k j new [] = refl
  lookup-insert k j new ((i, old) ∷ rest) =
      ground (arith, lookup-insert k j new rest, e.beq_iff i j, e.beq_iff i k, e.beq_iff k j)

  pub lookup-erase :
      (k j : K) (m : Dict K V) → lookup j (erase k m) ≡ (if k == j then none else lookup j m)
  unfolding lookup erase
  lookup-erase k j [] = ground arith
  lookup-erase k j ((i, w) ∷ m) =
      ground (arith, e.beq_iff k j, e.beq_iff i k, e.beq_iff i j, lookup-erase k j m)

  -- No key stands twice.
  abbrev pub IsMap : Dict K V → Type κ
  IsMap [] = Unit
  IsMap ((k, v) ∷ m) = (lookup k m ≡ none) × IsMap m

  pub insert-IsMap : (k : K) (v : V) (m : Dict K V) → IsMap m → IsMap (insert k v m)
  unfolding lookup insert
  insert-IsMap k v [] h = (refl, tt)
  insert-IsMap k v ((j, w) ∷ m) (hj, hm) =
      ground (arith, e.beq_iff j k, lookup-insert k j v m, insert-IsMap k v m hm, e.beq_iff k j)

  pub erase-IsMap : (k : K) (m : Dict K V) → IsMap m → IsMap (erase k m)
  unfolding lookup erase
  erase-IsMap k [] h = tt
  erase-IsMap k ((j, w) ∷ m) (hj, hm) =
      ground (arith, e.beq_iff j k, lookup-erase k j m, erase-IsMap k m hm, e.beq_iff k j)

module _ {ℓ κ} {K : Type ℓ} {V : Type κ} where
  unfoldable pub filter : (V → Bool) → Dict K V → Dict K V
  filter keep [] = []
  filter keep ((j, v) ∷ m) = let rest = filter keep m in if keep v then (j, v) ∷ rest else rest

module _ {ℓ κ} {K : Type ℓ} {V : Type κ} ⦃e : Eq K⦄ (keep : V → Bool) where
  pub lookup-filter_none :
      (k : K) (m : Dict K V) → lookup k m ≡ none → lookup k (filter keep m) ≡ none
  unfolding lookup filter
  lookup-filter_none k [] h = refl
  lookup-filter_none k ((j, v) ∷ m) h = ground (arith, lookup-filter_none k m)

  pub lookup-filter_kept :
      (k : K) (v : V) (m : Dict K V)
      → lookup k m ≡ some v
      → keep v ≡ true
      → lookup k (filter keep m) ≡ some v
  unfolding lookup filter
  lookup-filter_kept k v [] h hv = cc
  lookup-filter_kept k v ((j, w) ∷ m) h hv = ground (arith, lookup-filter_kept k v m)

  pub lookup-filter :
      (k : K) (m : Dict K V) → IsMap m → lookup k (filter keep m) ≡ keeping keep (lookup k m)
  unfolding lookup filter
  lookup-filter k [] h = refl
  lookup-filter k ((j, v) ∷ m) (hj, hm) =
      ground (arith, lookup-filter k m hm, lookup-filter_none k m, e.beq_iff j k)

  pub filter-IsMap : (m : Dict K V) → IsMap m → IsMap (filter keep m)
  unfolding lookup filter
  filter-IsMap [] h = tt
  filter-IsMap ((j, v) ∷ m) (hj, hm) = ground (arith, filter-IsMap m hm, lookup-filter_none j m)
