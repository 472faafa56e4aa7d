-- ===== src/Proxy/Claim/Lowest.antt =====
-- The claims that the routes make, and their lowest AppIDs.
use Prim.Native.Nat.{min}
use simpledeploy.Prelude.{
  ℕ, ◌≡◌, ◌∙◌, ap, refl, arith, Bool, false, ◌&&◌, ◌||◌, ◌≢◌, Option, none, some, List, [], ◌∷◌,
  if◌then◌else◌, ◌==◌, Bool-cases, Option-cases, inl, inr,
}
use simpledeploy.Prelude.Text.{Text, text_eq, text_beq_iff}
use simpledeploy.Prelude.Dict.{Dict, lookup, lookup-insert, IsMap, insert-IsMap}
use simpledeploy.Proxy.Route.{Route}
use simpledeploy.Proxy.Claim.{Apps, apps_at, lower_id, claim, claim_all}

abbrev pub lower : Option ℕ → ℕ → Option ℕ
lower none n = some n
lower (some m) n = some (min m n)

lookup-lower_id :
    (slug s : Text) (id : ℕ) (apps : Apps)
    → lookup s (lower_id slug id apps (lookup slug apps))
      ≡ (if slug == s then lower (lookup s apps) id else lookup s apps)
lookup-lower_id slug s id apps = elim (Option-cases (lookup slug apps)) [
  | inl e ↦ rw e (ground (arith, lookup-insert slug s id apps, text_beq_iff slug s, e))
  | inr (old, e) ↦ rw e (ground (arith, lookup-insert slug s id apps, text_beq_iff slug s, e))
]

module _ (norm : Text → Text) where
  abbrev pub claims : Text → Text → Route → Bool
  claims key slug r = norm r.domain == key && r.app_slug == slug

  -- Some route of the app is on the domain.
  unfoldable pub has_route : Text → Text → List Route → Bool
  has_route key slug [] = false
  has_route key slug (r ∷ rs) = claims key slug r || has_route key slug rs

  -- The lowest AppID of the app on the domain, beside one that is given.
  unfoldable pub lowest_id : Text → Text → List Route → Option ℕ → Option ℕ
  lowest_id key slug [] o = o
  lowest_id key slug (r ∷ rs) o =
      lowest_id key slug rs (if claims key slug r then lower o r.app_id else o)

  claim_step :
      (key slug : Text) (m : Dict Text Apps) (r : Route)
      → lookup slug (apps_at (lookup key (claim norm m r))) ≡ (
          if claims key slug r
          then lower (lookup slug (apps_at (lookup key m))) r.app_id
          else lookup slug (apps_at (lookup key m)))
  unfolding claim
  claim_step key slug m r =
      let apps = apps_at (lookup (norm r.domain) m) in
      elim (Bool-cases (norm r.domain == key)) [
        | inl same ↦
            let at_key = (text_beq_iff (norm r.domain) key).0 same in
            rw (lookup-insert, same) (lookup-lower_id r.app_slug slug r.app_id apps ∙ rw at_key)
        | inr other ↦ rw (lookup-insert, other)
      ]

  pub lookup-claim_all :
      (key slug : Text) (rs : List Route) (m : Dict Text Apps)
      → lookup slug (apps_at (lookup key (claim_all norm m rs)))
        ≡ lowest_id key slug rs (lookup slug (apps_at (lookup key m)))
  unfolding claim_all lowest_id
  lookup-claim_all key slug [] m = refl
  lookup-claim_all key slug (r ∷ rs) m =
      lookup-claim_all key slug rs (claim norm m r)
      ∙ ap (lowest_id key slug rs) (claim_step key slug m r)

  pub claim_all-IsMap :
      (rs : List Route) (m : Dict Text Apps) → IsMap m → IsMap (claim_all norm m rs)
  unfolding claim_all claim
  claim_all-IsMap [] m h = h
  claim_all-IsMap (r ∷ rs) m h =
      claim_all-IsMap rs (claim norm m r) (insert-IsMap (norm r.domain) _ m h)

  lowest_id-given :
      (key slug : Text) (rs : List Route) (n : ℕ) → lowest_id key slug rs (some n) ≢ none
  unfolding lowest_id
  lowest_id-given key slug [] n e = cc
  lowest_id-given key slug (r ∷ rs) n e = elim (Bool-cases (claims key slug r)) [
    | inl c ↦ lowest_id-given key slug rs (min n r.app_id) (rw c at e)
    | inr c ↦ lowest_id-given key slug rs n (rw c at e)
  ]

  -- An app has a lowest AppID on a domain exactly when it has a route there.
  pub lowest_id-has_route :
      (key slug : Text) (rs : List Route)
      → (lowest_id key slug rs none ≡ none → has_route key slug rs ≡ false)
        × (has_route key slug rs ≡ false → lowest_id key slug rs none ≡ none)
  unfolding lowest_id has_route
  lowest_id-has_route key slug [] = (λ e. refl, λ e. refl)
  lowest_id-has_route key slug (r ∷ rs) = elim (Bool-cases (claims key slug r)) [
    | inl c ↦ (λ e. absurd (lowest_id-given key slug rs r.app_id (rw c at e)), λ e. cc (rw c at e))
    | inr c ↦ rw c (lowest_id-has_route key slug rs)
  ]
