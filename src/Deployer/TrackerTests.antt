-- ===== src/Deployer/TrackerTests.antt =====
-- internal/deployer/tracker.go at concrete inputs.
use simpledeploy.Prelude.{◌≡◌, refl, false, List, [], ◌∷◌, string_eq, nat_eq}
use simpledeploy.Prelude.Dict.{lookup}
use simpledeploy.Deployer.Tracker.{OutputLine, DeployLog, new_tracker, track_with_log}
use simpledeploy.Deployer.Tracker.Flight.{
  Call, run, track_call, cancel_call, done_log_call, track_with_log-once,
}

-- The deploy of another app ends, and the first one is cancelled and not yet done.
abbrev meanwhile : List Call
meanwhile =
    done_log_call "blog" "deploy" "success" [] ∷ cancel_call "shop" ∷ track_call "blog" 5 ∷ []

track_with_log-once_example :
    track_with_log "shop" 8 9 (run meanwhile (track_with_log "shop" 1 2 new_tracker).0)
    ≡ (run meanwhile (track_with_log "shop" 1 2 new_tracker).0, false)
unfolding track_with_log new_tracker lookup
track_with_log-once_example =
    track_with_log-once "shop" 1 2 8 9 new_tracker meanwhile (refl, (tt, (tt, tt))) refl

abbrev pulling : OutputLine
pulling = record {
  line = "pulling";
  stream = "stdout";
  done = false;
  action = "";
  status = "";
  services = [];
}

abbrev one_line : DeployLog
one_line = record { history = pulling ∷ []; subscribers = []; closed = false }
