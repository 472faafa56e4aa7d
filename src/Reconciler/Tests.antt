-- ===== src/Reconciler/Tests.antt =====
-- Reconcile on a small directory: one app is new, one has changed, and one is gone.
use simpledeploy.Prelude.{ℕ, false, Option, some, none, [], ◌∷◌, ◌≡◌, refl}
use simpledeploy.Prelude.Text.{Text, text_eq, codes, text_beq}
use simpledeploy.Prelude.Dict.{Dict, lookup, insert}
use simpledeploy.Reconciler.{StoreApp, running, World, deployed, archived, reconcile}

-- The hash of a file is its path and a letter.
abbrev small_world : World
small_world = record {
  hash_file = λ path. b'h' ∷ path;
  exists = λ slug. false;
  is_refused = λ slug. false;
  is_deploying = λ slug. false;
  deploy = λ slug. running;
}

abbrev row_of : Text → Option ℕ → StoreApp
row_of hash at = record {
  compose_path = codes "w";
  status = codes "running";
  compose_hash = hash;
  archived_at = at;
}

abbrev directory : Dict Text Text
directory = (codes "new", codes "n") ∷ (codes "web", codes "w") ∷ []

abbrev before : Dict Text StoreApp
before = (codes "web", row_of (codes "old") none) ∷ (codes "gone", row_of (codes "hx") none) ∷ []

first_actions :
    (reconcile small_world 5 directory before).1
    ≡ deployed (codes "new") running ∷ deployed (codes "web") running ∷ archived (codes "gone") ∷ []
unfolding reconcile lookup text_beq insert
first_actions = refl

-- The folder of an archived app is back.
abbrev came_back : Dict Text StoreApp
came_back = (codes "web", row_of (codes "hw") (some 3)) ∷ []

abbrev web_only : Dict Text Text
web_only = (codes "web", codes "w") ∷ []

-- It is deployed, its row stays archived, and so it is deployed again each time.
archived_redeployed :
    (reconcile small_world 9 web_only (reconcile small_world 5 web_only came_back).0).1
    ≡ deployed (codes "web") running ∷ []
unfolding reconcile lookup text_beq insert
archived_redeployed = refl

archived_stays :
    lookup (codes "web") (reconcile small_world 5 web_only came_back).0
    ≡ some (row_of (codes "hw") (some 3))
unfolding reconcile lookup text_beq insert
archived_stays = refl
