-- ===== src/Deployer/Stabilize/Merge.antt =====
-- Replicas of one service collapse to the worst of them.
use Prim.Native.Nat.{max}
use mathlib.Core.Option
use simpledeploy.Prelude.{
  ℕ, ◌≡◌, refl, arith, String, List, [], ◌∷◌, if◌then◌else◌, ◌==◌, string_eq, Option, none, some,
  eq_iff, ap, ◌∙◌,
}
use simpledeploy.Prelude.Dict.{Dict, lookup, insert, lookup-insert, lookup-nil}
use simpledeploy.Deployer.Stabilize.{ServiceState, rank, merge_worst, merged, merge_all}

-- The merge keeps the worse rank and the larger restart count, and the service of its first part.
merge_worst-max :
    (a b : ServiceState)
    → (rank (merge_worst a b) ≡ max (rank a) (rank b))
      × ((merge_worst a b).restart_count ≡ max a.restart_count b.restart_count)
      × ((merge_worst a b).service ≡ a.service)
unfolding merge_worst
merge_worst-max a b = ground arith

abbrev pub worse : Option ℕ → ℕ → ℕ
worse none n = n
worse (some m) n = max m n

-- The worst of some number of each container of a service, beside one that is given.
unfoldable pub worst : (ServiceState → ℕ) → String → List ServiceState → Option ℕ → Option ℕ
worst f name [] o = o
worst f name (s ∷ ss) o = worst f name ss (if s.service == name then some (worse o (f s)) else o)

merged_max :
    (s : ServiceState) (o : Option ServiceState)
    → (rank (merged s o) ≡ worse (Option.map rank o) (rank s))
      × ((merged s o).restart_count ≡ worse (Option.map (λ t. t.restart_count) o) s.restart_count)
merged_max s none = (refl, refl)
merged_max s (some old) = ground (arith, merge_worst-max old s)

module _ (f : ServiceState → ℕ)
    (grows : (s : ServiceState) (o : Option ServiceState)
      → f (merged s o) ≡ worse (Option.map f o) (f s))
    (name : String) where
  merge_step :
      (s : ServiceState) (m : Dict String ServiceState)
      → Option.map f (lookup name (insert s.service (merged s (lookup s.service m)) m)) ≡ (
          if s.service == name
          then some (worse (Option.map f (lookup name m)) (f s))
          else Option.map f (lookup name m))
  merge_step s m =
      let next = merged s (lookup s.service m) in
      ground (
        arith,
        lookup-insert s.service name next m,
        grows s (lookup s.service m),
        eq_iff s.service name,
      )

  merge_all_from :
      (ss : List ServiceState) (m : Dict String ServiceState)
      → Option.map f (lookup name (merge_all ss m)) ≡ worst f name ss (Option.map f (lookup name m))
  unfolding merge_all worst
  merge_all_from [] m = refl
  merge_all_from (s ∷ ss) m =
      merge_all_from ss (insert s.service (merged s (lookup s.service m)) m)
      ∙ ap (worst f name ss) (merge_step s m)

-- A service is reported with the worst rank and the largest restart count of its containers, and is
-- reported only if it has one.
pub merge_all-worst :
    (name : String) (ss : List ServiceState)
    → (Option.map rank (lookup name (merge_all ss [])) ≡ worst rank name ss none)
      × (Option.map (λ t. t.restart_count) (lookup name (merge_all ss []))
          ≡ worst (λ t. t.restart_count) name ss none)
merge_all-worst name ss = (
  merge_all_from rank (λ s o. (merged_max s o).0) name ss [] ∙ rw lookup-nil,
  merge_all_from (λ t. t.restart_count) (λ s o. (merged_max s o).1) name ss [] ∙ rw lookup-nil,
)
