-- ===== src/Reconciler/Loops.antt =====
-- What the two loops of Reconcile leave alone, and what they change.
use simpledeploy.Prelude.{
  false, Option, none, some, [], ◌∷◌, ◌≡◌, refl, ◌∙◌, arith, ◌==◌, Bool-cases, inl, inr,
}
use simpledeploy.Prelude.Text.{Text, text_eq}
use simpledeploy.Prelude.Dict.{Dict, lookup, IsMap, insert-IsMap}
use simpledeploy.Reconciler.{
  StoreApp, DeployResult, skipped, refused, failed, unstable, running, World, upsert_app,
  deploy_app, start_deploy, needs_deploy, normalize_path, visit_app, deploy_loop,
}
use simpledeploy.Reconciler.Settled.{lookup-upsert_app}

module _ (w : World) (slug path j : Text) (other : (slug == j) ≡ false) where
  deploy_app-others :
      (r : DeployResult) (apps : Dict Text StoreApp)
      → lookup j (deploy_app w slug path r apps).0 ≡ lookup j apps
  deploy_app-others skipped apps = refl
  deploy_app-others refused apps = lookup-upsert_app slug j path _ _ apps ∙ rw other
  deploy_app-others failed apps = lookup-upsert_app slug j path _ _ apps ∙ rw other
  deploy_app-others unstable apps = lookup-upsert_app slug j path _ _ apps ∙ rw other
  deploy_app-others running apps = lookup-upsert_app slug j path _ _ apps ∙ rw other

  start_deploy-others :
      (apps : Dict Text StoreApp) → lookup j (start_deploy w slug path apps).0 ≡ lookup j apps
  start_deploy-others apps = elim (Bool-cases (w.is_deploying slug)) [
    | inl busy ↦ rw busy
    | inr idle ↦ rw idle (deploy_app-others (w.deploy slug) apps)
  ]

  normalize_path-others :
      (a : StoreApp) (apps : Dict Text StoreApp)
      → lookup j (normalize_path slug path a apps) ≡ lookup j apps
  normalize_path-others a apps = elim (Bool-cases (a.compose_path == path)) [
    | inl same ↦ rw same
    | inr moved ↦ rw moved (lookup-upsert_app slug j path _ _ apps ∙ rw other)
  ]

  pub visit_app-others :
      (found : Option StoreApp) (apps : Dict Text StoreApp)
      → lookup j (visit_app w slug path found apps).0 ≡ lookup j apps
  unfolding visit_app
  visit_app-others none apps = start_deploy-others apps
  visit_app-others (some a) apps = elim (Bool-cases (needs_deploy w path a)) [
    | inl changed ↦
        rw changed
          (start_deploy-others (normalize_path slug path a apps) ∙ normalize_path-others a apps)
    | inr fresh ↦ rw fresh (normalize_path-others a apps)
  ]

-- No slug stands twice in the table.
module _ (w : World) (slug path : Text) where
  upsert_app-IsMap :
      (status hash : Text) (apps : Dict Text StoreApp)
      → IsMap apps
      → IsMap (upsert_app slug path status hash apps)
  unfolding upsert_app
  upsert_app-IsMap status hash apps m = insert-IsMap slug _ apps m

  deploy_app-IsMap :
      (r : DeployResult) (apps : Dict Text StoreApp)
      → IsMap apps
      → IsMap (deploy_app w slug path r apps).0
  deploy_app-IsMap skipped apps m = m
  deploy_app-IsMap refused apps m = upsert_app-IsMap _ _ apps m
  deploy_app-IsMap failed apps m = upsert_app-IsMap _ _ apps m
  deploy_app-IsMap unstable apps m = upsert_app-IsMap _ _ apps m
  deploy_app-IsMap running apps m = upsert_app-IsMap _ _ apps m

  start_deploy-IsMap :
      (apps : Dict Text StoreApp) → IsMap apps → IsMap (start_deploy w slug path apps).0
  start_deploy-IsMap apps m = elim (Bool-cases (w.is_deploying slug)) [
    | inl busy ↦ rw busy m
    | inr idle ↦ rw idle (deploy_app-IsMap (w.deploy slug) apps m)
  ]

  normalize_path-IsMap :
      (a : StoreApp) (apps : Dict Text StoreApp)
      → IsMap apps
      → IsMap (normalize_path slug path a apps)
  normalize_path-IsMap a apps m = elim (Bool-cases (a.compose_path == path)) [
    | inl same ↦ rw same m
    | inr moved ↦ rw moved (upsert_app-IsMap _ _ apps m)
  ]

  visit_app-IsMap :
      (found : Option StoreApp) (apps : Dict Text StoreApp)
      → IsMap apps
      → IsMap (visit_app w slug path found apps).0
  unfolding visit_app
  visit_app-IsMap none apps m = start_deploy-IsMap apps m
  visit_app-IsMap (some a) apps m = elim (Bool-cases (needs_deploy w path a)) [
    | inl changed ↦ rw changed (start_deploy-IsMap _ (normalize_path-IsMap a apps m))
    | inr fresh ↦ rw fresh (normalize_path-IsMap a apps m)
  ]

pub lookup-cons_none {κ} :
    {V : Type κ} (j k : Text) (v : V) (m : Dict Text V)
    → lookup j ((k, v) ∷ m) ≡ none
    → ((k == j) ≡ false) × (lookup j m ≡ none)
unfolding lookup
lookup-cons_none j k v m h = (ground arith, ground arith)

pub deploy_loop-IsMap :
    (w : World) (current : Dict Text StoreApp) (desired : Dict Text Text)
    (apps : Dict Text StoreApp)
    → IsMap apps
    → IsMap (deploy_loop w current desired apps).0
unfolding deploy_loop
deploy_loop-IsMap w current [] apps m = m
deploy_loop-IsMap w current ((slug, path) ∷ desired) apps m =
    deploy_loop-IsMap w current desired _ (visit_app-IsMap w slug path (lookup slug current) apps m)

pub deploy_loop-others :
    (w : World) (current : Dict Text StoreApp) (desired : Dict Text Text)
    (apps : Dict Text StoreApp) (j : Text)
    → lookup j desired ≡ none
    → lookup j (deploy_loop w current desired apps).0 ≡ lookup j apps
unfolding deploy_loop
deploy_loop-others w current [] apps j h = refl
deploy_loop-others w current ((slug, path) ∷ desired) apps j h =
    let (other, rest) = lookup-cons_none j slug path desired h in
    deploy_loop-others w current desired _ j rest
    ∙ visit_app-others w slug path j other (lookup slug current) apps
