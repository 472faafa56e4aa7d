-- ===== src/Reconciler.antt =====
-- internal/reconciler/reconciler.go: Reconcile, which brings the apps of the store in line with the
-- apps directory. Deploys of different apps run side by side and touch their own row only: they are in
-- sequence here. Routes, labels, versions, tombstones and the audit record are left out.
pub mod Settled
pub mod Loops
pub mod Archive
pub mod Converges
pub mod Tests
use simpledeploy.Prelude.{
  ℕ, Bool, true, false, not, ◌&&◌, ◌||◌, Option, none, some, List, [], ◌∷◌, ◌++◌, if◌then◌else◌,
  ◌==◌,
}
use simpledeploy.Prelude.Text.{Text, text_eq, codes}
use simpledeploy.Prelude.Dict.{Dict, lookup, insert, filter}

-- A row of the table apps, at its slug.
pub record StoreApp : Type 0 where
  pub compose_path : Text
  pub status : Text
  pub compose_hash : Text
  pub archived_at : Option ℕ

-- How Deploy ends: another deploy of the app is under way, the file was refused before it ran, or the
-- status that it leads to.
pub data DeployResult : Type 0 where
  skipped : DeployResult
  refused : DeployResult
  failed : DeployResult
  unstable : DeployResult
  running : DeployResult

-- What Reconcile finds: the hash of a file, "" where it cannot be read; whether the compose file of a
-- slug is there; which slugs the scan refuses; which are being deployed; and how a deploy would end.
pub record World : Type 0 where
  pub hash_file : Text → Text
  pub exists : Text → Bool
  pub is_refused : Text → Bool
  pub is_deploying : Text → Bool
  pub deploy : Text → DeployResult

pub data Action : Type 0 where
  deployed : Text → DeployResult → Action
  retried : Text → Action
  archived : Text → Action

abbrev pub is_live : StoreApp → Bool
is_live a = elim a.archived_at [ none ↦ true | some t ↦ false ]

-- ListApps leaves archived rows out.
unfoldable pub list_apps : Dict Text StoreApp → Dict Text StoreApp
unfolding filter
list_apps apps = filter is_live apps

abbrev pub archived_of : Option StoreApp → Option ℕ
archived_of none = none
archived_of (some a) = a.archived_at

-- UpsertApp leaves archived_at as it is.
unfoldable pub upsert_app : Text → Text → Text → Text → Dict Text StoreApp → Dict Text StoreApp
upsert_app slug path status hash apps =
    insert slug
      (record {
        compose_path = path;
        status = status;
        compose_hash = hash;
        archived_at = archived_of (lookup slug apps);
      })
      apps

abbrev pub mark_row : ℕ → Option StoreApp → Text → Dict Text StoreApp → Dict Text StoreApp
mark_row now none slug apps = apps
mark_row now (some a) slug apps = insert slug (record a { archived_at = some now }) apps

unfoldable pub mark_app_archived : Text → ℕ → Dict Text StoreApp → Dict Text StoreApp
mark_app_archived slug now apps = mark_row now (lookup slug apps) slug apps

abbrev pub hash_of : Option StoreApp → Text
hash_of none = []
hash_of (some a) = a.compose_hash

abbrev pub status_of : DeployResult → Text
status_of skipped = []
status_of refused = codes "error"
status_of failed = codes "error"
status_of unstable = codes "unstable"
status_of running = codes "running"

-- deployApp, by its result: a refused file keeps the stored hash.
abbrev pub deploy_app :
    World → Text → Text → DeployResult → Dict Text StoreApp → Dict Text StoreApp × List Action
deploy_app w slug path skipped apps = (apps, retried slug ∷ [])
deploy_app w slug path refused apps = (
  upsert_app slug path (status_of refused) (hash_of (lookup slug apps)) apps,
  deployed slug refused ∷ [],
)
deploy_app w slug path failed apps =
    (upsert_app slug path (status_of failed) (w.hash_file path) apps, deployed slug failed ∷ [])
deploy_app w slug path unstable apps =
    (upsert_app slug path (status_of unstable) (w.hash_file path) apps, deployed slug unstable ∷ [])
deploy_app w slug path running apps =
    (upsert_app slug path (status_of running) (w.hash_file path) apps, deployed slug running ∷ [])

abbrev pub start_deploy :
    World → Text → Text → Dict Text StoreApp → Dict Text StoreApp × List Action
start_deploy w slug path apps =
    if w.is_deploying slug
    then (apps, retried slug ∷ [])
    else deploy_app w slug path (w.deploy slug) apps

abbrev pub needs_deploy : World → Text → StoreApp → Bool
needs_deploy w path a = not (w.hash_file path == []) && not (w.hash_file path == a.compose_hash)

abbrev pub normalize_path : Text → Text → StoreApp → Dict Text StoreApp → Dict Text StoreApp
normalize_path slug path a apps =
    if a.compose_path == path then apps else upsert_app slug path a.status a.compose_hash apps

-- One app of the directory, with its row in the list.
unfoldable pub visit_app :
    World → Text → Text → Option StoreApp → Dict Text StoreApp → Dict Text StoreApp × List Action
unfolding upsert_app
visit_app w slug path none apps = start_deploy w slug path apps
visit_app w slug path (some a) apps =
    if needs_deploy w path a
    then start_deploy w slug path (normalize_path slug path a apps)
    else (normalize_path slug path a apps, [])

unfoldable pub deploy_loop :
    World
    → Dict Text StoreApp
    → Dict Text Text
    → Dict Text StoreApp
    → Dict Text StoreApp × List Action
unfolding visit_app
deploy_loop w current [] apps = (apps, [])
deploy_loop w current ((slug, path) ∷ desired) apps =
    let step = visit_app w slug path (lookup slug current) apps in
    let rest = deploy_loop w current desired step.0 in (rest.0, step.1 ++ rest.1)

abbrev pub is_wanted : World → Dict Text Text → Text → Bool
is_wanted w desired slug =
    (elim (lookup slug desired) [ none ↦ false | some path ↦ true ])
    || w.is_refused slug
    || w.exists slug

unfoldable pub archive_loop :
    World
    → ℕ
    → Dict Text Text
    → Dict Text StoreApp
    → Dict Text StoreApp
    → Dict Text StoreApp × List Action
unfolding mark_app_archived
archive_loop w now desired [] apps = (apps, [])
archive_loop w now desired ((slug, a) ∷ current) apps =
    let kept = archive_loop w now desired current apps in
    let gone = archive_loop w now desired current (mark_app_archived slug now apps) in
    if is_wanted w desired slug then kept else (gone.0, archived slug ∷ gone.1)

-- The rows are listed once, before anything is deployed.
unfoldable pub reconcile :
    World → ℕ → Dict Text Text → Dict Text StoreApp → Dict Text StoreApp × List Action
unfolding list_apps deploy_loop archive_loop
reconcile w now desired apps =
    let current = list_apps apps in
    let deployed_apps = deploy_loop w current desired apps in
    let rest = archive_loop w now desired current deployed_apps.0 in
    (rest.0, deployed_apps.1 ++ rest.1)
