-- ===== src/Proxy/Claim.antt =====
-- `claimDomains` of internal/proxy/proxy.go: one app for each domain. `norm` is `normalizeDomain`.
pub mod First
pub mod Lowest
pub mod Owner
use simpledeploy.Prelude.{
  ℕ, Bool, true, false, ◌&&◌, Option, none, some, List, [], ◌∷◌, ltb, if◌then◌else◌, ◌==◌, nat_eq,
  any,
}
use simpledeploy.Prelude.Text.{Text, text_eq, text_lt}
use simpledeploy.Prelude.Dict.{Dict, lookup, insert}
use simpledeploy.Prelude.Sort.{sort_stable}
use simpledeploy.Proxy.Route.{Route}

-- The apps that claim a domain, with the lowest AppID of each.
abbrev pub Apps : Type 0
Apps = Dict Text ℕ

abbrev pub apps_at : Option Apps → Apps
apps_at none = []
apps_at (some apps) = apps

-- `if id, ok := apps[slug]; !ok || r.AppID < id { apps[slug] = r.AppID }`
abbrev pub lower_id : Text → ℕ → Apps → Option ℕ → Apps
lower_id slug id apps none = insert slug id apps
lower_id slug id apps (some old) = if ltb id old then insert slug id apps else apps

-- By AppID, then by slug.
unfoldable pub slug_less : Text × ℕ → Text × ℕ → Bool
slug_less (s, i) (t, j) = if i == j then text_lt s t else ltb i j

abbrev pub first_slug : List (Text × ℕ) → Option Text
first_slug [] = none
first_slug ((s, i) ∷ _) = some s

abbrev pub owner_among : Apps → Option ℕ → Text → Option Text
owner_among apps none prev = first_slug (sort_stable slug_less apps)
owner_among apps (some id) prev = some prev

-- The owner in `prev` if it still claims the domain, otherwise the first of the sorted slugs.
unfoldable pub choose_owner : Option Text → Apps → Option Text
choose_owner none apps = first_slug (sort_stable slug_less apps)
choose_owner (some prev) apps = owner_among apps (lookup prev apps) prev

abbrev pub add_owner : Text → Option Text → Dict Text Text → Dict Text Text
add_owner key none owners = owners
add_owner key (some o) owners = (key, o) ∷ owners

-- The owner of each domain that is claimed.
unfoldable pub assign_owners : Dict Text Text → Dict Text Apps → Dict Text Text
unfolding choose_owner
assign_owners prev [] = []
assign_owners prev ((key, apps) ∷ m) =
    add_owner key (choose_owner (lookup key prev) apps) (assign_owners prev m)

abbrev pub is_owner : Option Text → Text → Bool
is_owner none slug = false
is_owner (some o) slug = o == slug

module _ (norm : Text → Text) where
  unfoldable pub claim : Dict Text Apps → Route → Dict Text Apps
  claim m r =
      let key = norm r.domain in
      let apps = apps_at (lookup key m) in
      insert key (lower_id r.app_slug r.app_id apps (lookup r.app_slug apps)) m

  unfoldable pub claim_all : Dict Text Apps → List Route → Dict Text Apps
  unfolding claim
  claim_all m [] = m
  claim_all m (r ∷ rs) = claim_all (claim m r) rs

  unfoldable pub keep_owned : Dict Text Text → List Route → List Route
  keep_owned owners [] = []
  keep_owned owners (r ∷ rs) =
      let rest = keep_owned owners rs in
      if is_owner (lookup (norm r.domain) owners) r.app_slug then r ∷ rest else rest

  unfoldable pub claim_domains : List Route → Dict Text Text → List Route × Dict Text Text
  unfolding claim_all assign_owners keep_owned
  claim_domains routes prev =
      let owners = assign_owners prev (claim_all [] routes) in (keep_owned owners routes, owners)
