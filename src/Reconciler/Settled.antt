-- ===== src/Reconciler/Settled.antt =====
-- What one visit of an app of the directory leaves behind.
use simpledeploy.Prelude.{
  Bool, true, false, none, some, ◌≡◌, ap, ◌∙◌, arith, if◌then◌else◌, ◌==◌, beq_self, Bool-cases,
  Option-cases, inl, inr,
}
use simpledeploy.Prelude.Text.{Text, text_eq}
use simpledeploy.Prelude.Dict.{Dict, lookup, lookup-insert, keeping}
use simpledeploy.Reconciler.{
  StoreApp, DeployResult, skipped, refused, failed, unstable, running, World, is_live, archived_of,
  status_of, upsert_app, deploy_app, start_deploy, needs_deploy, normalize_path, visit_app,
}

-- The row of an app that is as the directory wants it: live, at its path, and with nothing to deploy.
abbrev pub IsSettled : World → Text → Text → Dict Text StoreApp → Type 0
IsSettled w slug path apps =
    (a : StoreApp) × (lookup slug apps ≡ some a)
    × (a.archived_at ≡ none)
    × ((a.compose_path == path) ≡ true)
    × (needs_deploy w path a ≡ false)

-- The file of the app is deployed when it is visited: no deploy is under way and it is not refused.
abbrev pub settles : DeployResult → Bool
settles skipped = false
settles refused = false
settles failed = true
settles unstable = true
settles running = true

pub record IsReady (w : World) (slug : Text) (apps : Dict Text StoreApp) : Type 0 where
  pub idle : w.is_deploying slug ≡ false
  pub runs : settles (w.deploy slug) ≡ true
  pub unarchived : archived_of (lookup slug apps) ≡ none

pub lookup-upsert_app :
    (slug j path status hash : Text) (apps : Dict Text StoreApp)
    → lookup j (upsert_app slug path status hash apps) ≡ (
        if slug == j
        then some (record {
          compose_path = path;
          status = status;
          compose_hash = hash;
          archived_at = archived_of (lookup slug apps);
        })
        else lookup j apps)
unfolding upsert_app
lookup-upsert_app slug j path status hash apps = lookup-insert slug j _ apps

module _ (w : World) (slug path : Text) where
  upsert_app-IsSettled :
      (status : Text) (apps : Dict Text StoreApp)
      → archived_of (lookup slug apps) ≡ none
      → IsSettled w slug path (upsert_app slug path status (w.hash_file path) apps)
  upsert_app-IsSettled status apps h = (
    record {
      compose_path = path;
      status = status;
      compose_hash = w.hash_file path;
      archived_at = archived_of (lookup slug apps);
    },
    lookup-upsert_app slug slug path status (w.hash_file path) apps ∙ rw (beq_self slug),
    h,
    beq_self path,
    ground (arith, beq_self (w.hash_file path)),
  )

  deploy_app-IsSettled :
      (r : DeployResult) (apps : Dict Text StoreApp)
      → settles r ≡ true
      → archived_of (lookup slug apps) ≡ none
      → IsSettled w slug path (deploy_app w slug path r apps).0
  deploy_app-IsSettled skipped apps s h = cc
  deploy_app-IsSettled refused apps s h = cc
  deploy_app-IsSettled failed apps s h = upsert_app-IsSettled (status_of failed) apps h
  deploy_app-IsSettled unstable apps s h = upsert_app-IsSettled (status_of unstable) apps h
  deploy_app-IsSettled running apps s h = upsert_app-IsSettled (status_of running) apps h

  start_deploy-IsSettled :
      (apps : Dict Text StoreApp)
      → IsReady w slug apps
      → IsSettled w slug path (start_deploy w slug path apps).0
  start_deploy-IsSettled apps r =
      rw r.idle (deploy_app-IsSettled (w.deploy slug) apps r.runs r.unarchived)

  -- A path is written with the row that it stands in.
  normalize_path-row :
      (a : StoreApp) (apps : Dict Text StoreApp)
      → lookup slug apps ≡ some a
      → lookup slug (normalize_path slug path a apps)
        ≡ some (if a.compose_path == path then a else record a { compose_path = path })
  normalize_path-row a apps found = elim (Bool-cases (a.compose_path == path)) [
    | inl same ↦ rw same found
    | inr other ↦
        rw other (
          lookup-upsert_app slug slug path a.status a.compose_hash apps ∙ rw (beq_self slug, found))
  ]

  normalize_path-IsSettled :
      (a : StoreApp) (apps : Dict Text StoreApp)
      → lookup slug apps ≡ some a
      → a.archived_at ≡ none
      → needs_deploy w path a ≡ false
      → IsSettled w slug path (normalize_path slug path a apps)
  normalize_path-IsSettled a apps found alive fresh = elim (Bool-cases (a.compose_path == path)) [
    | inl same ↦ (a, rw same found, alive, same, fresh)
    | inr other ↦ (
      record a { compose_path = path },
      normalize_path-row a apps found ∙ rw other,
      alive,
      beq_self path,
      fresh,
    )
  ]

  normalize_path-IsReady :
      (a : StoreApp) (apps : Dict Text StoreApp)
      → lookup slug apps ≡ some a
      → IsReady w slug apps
      → IsReady w slug (normalize_path slug path a apps)
  normalize_path-IsReady a apps found r = record {
    idle = r.idle;
    runs = r.runs;
    unarchived = elim (Bool-cases (a.compose_path == path)) [
      | inl same ↦
          ap archived_of (normalize_path-row a apps found)
          ∙ rw same (ground (arith, r.unarchived, found))
      | inr other ↦
          ap archived_of (normalize_path-row a apps found)
          ∙ rw other (ground (arith, r.unarchived, found))
    ];
  }

  visit_found-IsSettled :
      (a : StoreApp) (apps : Dict Text StoreApp)
      → lookup slug apps ≡ some a
      → IsReady w slug apps
      → IsSettled w slug path (visit_app w slug path (some a) apps).0
  unfolding visit_app
  visit_found-IsSettled a apps found r = elim (Bool-cases (needs_deploy w path a)) [
    | inl changed ↦ rw changed (
        start_deploy-IsSettled (normalize_path slug path a apps)
          (normalize_path-IsReady a apps found r))
    | inr fresh ↦
        rw fresh (normalize_path-IsSettled a apps found (ground (arith, r.unarchived, found)) fresh)
  ]

  -- The app is settled once it was visited with its row of the list.
  pub visit_app-IsSettled :
      (apps : Dict Text StoreApp)
      → IsReady w slug apps
      → IsSettled w slug path (visit_app w slug path (keeping is_live (lookup slug apps)) apps).0
  visit_app-IsSettled apps r = elim (Option-cases (lookup slug apps)) [
    | inl new ↦ rw new (unfold visit_app in start_deploy-IsSettled apps r)
    | inr (a, found) ↦
        let alive : is_live a ≡ true = ground (arith, r.unarchived, found) in
        rw (found, alive) (visit_found-IsSettled a apps found r)
  ]
