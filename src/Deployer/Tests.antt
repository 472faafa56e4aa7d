-- ===== src/Deployer/Tests.antt =====
-- internal/deployer at concrete inputs.

use simpledeploy.Prelude.{ℕ, ◌≡◌, refl, String, Bool, true, false, some, List, [], ◌∷◌, string_eq}
use simpledeploy.Prelude.Dict.{lookup, insert}
use simpledeploy.Deployer.Stabilize.{
  ServiceState, Verdict, success, unstable, Poll, stabilize, settled, baseline, all_relative,
  rank_of, merge_worst, merge_all,
}
use simpledeploy.Deployer.Stabilize.Outcome.{stabilize_ends}

abbrev web : String → String → ℕ → ServiceState
web state health count = record {
  service = "web";
  state = state;
  health = health;
  restart_count = count;
  exit_code = 0;
}

abbrev poll : ServiceState → Bool → Poll
poll s late = record { states = s ∷ []; late = late; cancelled = false }

-- Starting, then healthy.
abbrev good : List Poll
good = poll (web "running" "starting" 3) false ∷ poll (web "running" "healthy" 3) false ∷ []

-- Restarted in the wait.
abbrev bad : List Poll
bad = poll (web "running" "starting" 3) false ∷ poll (web "running" "healthy" 5) true ∷ []

good_run : stabilize good ≡ some (success, web "running" "healthy" 0 ∷ [])
unfolding stabilize settled baseline all_relative lookup insert
good_run = refl

bad_run : stabilize bad ≡ some (unstable, web "running" "healthy" 2 ∷ [])
unfolding stabilize settled baseline all_relative lookup insert
bad_run = refl

stabilize_ends_example : (r : Verdict × List ServiceState) × (stabilize bad ≡ some r)
stabilize_ends_example = stabilize_ends bad refl

abbrev replicas : List ServiceState
replicas = web "running" "" 1 ∷ web "exited" "" 0 ∷ web "running" "starting" 4 ∷ []

worst_replica : lookup "web" (merge_all replicas []) ≡ some (web "exited" "" 4)
unfolding lookup insert merge_all merge_worst rank_of
worst_replica = refl
