-- ===== src/Reconciler/Converges.antt =====
-- A second Reconcile of the same directory has nothing to do.
use simpledeploy.Prelude.{[], ◌∷◌, ◌≡◌}
use simpledeploy.Prelude.Text.{Text, text_eq}
use simpledeploy.Prelude.Dict.{Dict, lookup, keeping}
use simpledeploy.Reconciler.{StoreApp, World, is_live}
use simpledeploy.Reconciler.Settled.{IsSettled, IsReady}

-- Every app of the directory is ready, and every one is settled.
abbrev pub AllReady : World → Dict Text Text → Dict Text StoreApp → Type 0
AllReady w [] apps = Unit
AllReady w ((slug, path) ∷ desired) apps = IsReady w slug apps × AllReady w desired apps

abbrev AllSettled : World → Dict Text Text → Dict Text StoreApp → Type 0
AllSettled w [] apps = Unit
AllSettled w ((slug, path) ∷ desired) apps = IsSettled w slug path apps × AllSettled w desired apps

-- The list that was made before has the live row of each app.
abbrev AllListed : Dict Text StoreApp → Dict Text Text → Dict Text StoreApp → Type 0
AllListed current [] apps = Unit
AllListed current ((slug, path) ∷ desired) apps =
    (lookup slug current ≡ keeping is_live (lookup slug apps)) × AllListed current desired apps
