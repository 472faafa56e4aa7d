-- ===== src/Compose/Validate/Loops.antt =====
-- The loops of ValidateComposeSecurity when they find nothing, and the services they go over.
use simpledeploy.Prelude.{
  ◌≡◌, refl, Option, none, some, List, [], ◌∷◌, ◌++◌, ◌==◌, All, Bool-cases, inl, inr,
}
use simpledeploy.Prelude.Text.{Text, text_eq, text_lt, text_beq_iff}
use simpledeploy.Prelude.Dict.{Dict, lookup, lookup-insert}
use simpledeploy.Prelude.Sort.{All-sort_stable}
use simpledeploy.Compose.Container.Contained.{nil-left, nil-right}
use simpledeploy.Compose.Container.{prefixed}
use simpledeploy.Compose.Security.{keys, sorted_keys, at_key, for_keys, not_own}
use simpledeploy.Compose.Validate.{overwrite}

pub prefixed-nil : (what : Text) (rs : List Text) → prefixed what rs ≡ [] → rs ≡ []
unfolding prefixed
prefixed-nil what [] e = refl
prefixed-nil what (r ∷ rs) e = cc

pub prefixed-front :
    (what : Text) (rs rest : List Text) → prefixed what rs ++ rest ≡ [] → (rs ≡ []) × (rest ≡ [])
unfolding prefixed
prefixed-front what [] rest e = (refl, e)
prefixed-front what (r ∷ rs) rest e = cc

pub not_own-nil : (rs : List Text) → not_own [] rs ≡ rs
unfolding not_own
not_own-nil [] = refl
not_own-nil (r ∷ rs) = cc (not_own-nil rs)

pub for_keys-nil :
    {V : Type 0} (check : Text → V → List Text) (m : Dict Text V) (ks : List Text)
    → for_keys check m ks ≡ []
    → All (λ k. at_key check k (lookup k m) ≡ []) ks
unfolding for_keys
for_keys-nil check m [] e = tt
for_keys-nil check m (k ∷ ks) e = (
  nil-left (at_key check k (lookup k m)) (for_keys check m ks) e,
  for_keys-nil check m ks (nil-right (at_key check k (lookup k m)) (for_keys check m ks) e),
)

pub All-keys :
    {V : Type 0} (P : Text → Type 0) (m : Dict Text V) (k : Text) (v : V)
    → All P (keys m)
    → lookup k m ≡ some v
    → P k
unfolding lookup
All-keys P [] k v h e = cc
All-keys P ((j, w) ∷ m) k v (hj, h) e = elim (Bool-cases (j == k)) [
  | inl same ↦ rw (← (text_beq_iff j k).0 same) hj
  | inr other ↦ All-keys P m k v h (rw other at e)
]

-- Every entry of a map whose loop finds nothing is in order.
pub sorted-nil :
    {V : Type 0} (check : Text → V → List Text) (m : Dict Text V) (k : Text) (v : V)
    → for_keys check m (sorted_keys m) ≡ []
    → lookup k m ≡ some v
    → check k v ≡ []
sorted-nil check m k v e found =
    let each =
      All-sort_stable text_lt (λ j. at_key check j (lookup j m) ≡ []) (keys m)
        (for_keys-nil check m (sorted_keys m) e) in
    rw found at (All-keys (λ j. at_key check j (lookup j m) ≡ []) m k v each found)

abbrev pub first_of : {V : Type 0} → Option V → Option V → Option V
first_of none other = other
first_of (some v) other = some v

pub lookup-overwrite :
    {V : Type 0} (k : Text) (base m : Dict Text V)
    → lookup k (overwrite base m) ≡ first_of (lookup k m) (lookup k base)
unfolding overwrite lookup
lookup-overwrite k base [] = refl
lookup-overwrite k base ((j, v) ∷ m) = elim (Bool-cases (j == k)) [
  | inl same ↦ rw (lookup-insert, same) refl
  | inr other ↦ rw (lookup-insert, other) (lookup-overwrite k base m)
]
