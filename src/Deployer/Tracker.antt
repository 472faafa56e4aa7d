-- ===== src/Deployer/Tracker.antt =====
-- internal/deployer/tracker.go: the log of one deploy with its subscribers, and the tracker, which
-- allows one deploy for each app. A log is an object of a store, named by a number, and so is the
-- function that cancels a deploy. What a reader takes out of its channel is not a step here.
pub mod Flight
use simpledeploy.Prelude.{
  ℕ, ◌+◌, ◌-◌, String, Bool, true, false, Option, none, some, List, [], ◌∷◌, ◌++◌, ltb,
  if◌then◌else◌, length, drop, string_eq, nat_eq,
}
use simpledeploy.Prelude.Dict.{Dict, lookup, insert, erase}
use simpledeploy.Deployer.Stabilize.{ServiceState}

pub record OutputLine : Type 0 where
  pub line : String
  pub stream : String
  pub done : Bool
  pub action : String
  pub status : String
  pub services : List ServiceState

-- What waits in the channel of a subscriber.
pub record Channel : Type 0 where
  pub queue : List OutputLine
  pub closed : Bool

pub record DeployLog : Type 0 where
  pub history : List OutputLine
  pub subscribers : Dict ℕ Channel
  pub closed : Bool

abbrev pub channel_capacity : ℕ
channel_capacity = 200

abbrev pub history_cap : ℕ
history_cap = 10000

unfoldable pub new_deploy_log : DeployLog
new_deploy_log = record { history = []; subscribers = []; closed = false }

-- The send that never blocks: a full channel loses the line.
abbrev pub offer_line : OutputLine → List OutputLine → List OutputLine
offer_line l queue = if ltb (length queue) channel_capacity then queue ++ l ∷ [] else queue

unfoldable pub replay : List OutputLine → List OutputLine → List OutputLine
replay [] queue = queue
replay (l ∷ ls) queue = replay ls (offer_line l queue)

-- `id` is the number of the new channel.
unfoldable pub subscribe_log : ℕ → DeployLog → DeployLog × Channel
unfolding replay
subscribe_log id dl =
    let queue = replay dl.history [] in
    if dl.closed then (dl, record { queue = queue; closed = true }) else (
      record dl {
        subscribers = insert id (record { queue = queue; closed = false }) dl.subscribers;
      },
      record { queue = queue; closed = false },
    )

unfoldable pub unsubscribe_log : ℕ → DeployLog → DeployLog
unsubscribe_log id dl = record dl { subscribers = erase id dl.subscribers }

unfoldable pub offer_each : OutputLine → Bool → Dict ℕ Channel → Dict ℕ Channel
offer_each l close [] = []
offer_each l close ((id, ch) ∷ subs) =
    (id, record { queue = offer_line l ch.queue; closed = close }) ∷ offer_each l close subs

abbrev pub last_lines : List OutputLine → List OutputLine
last_lines ls = if ltb history_cap (length ls) then drop (length ls - history_cap) ls else ls

unfoldable pub send : OutputLine → DeployLog → DeployLog
unfolding offer_each
send l dl = if dl.closed then dl else record dl {
  history = last_lines (dl.history ++ l ∷ []);
  subscribers = offer_each l false dl.subscribers;
}

abbrev pub done_line : String → String → List ServiceState → OutputLine
done_line action status services = record {
  line = "";
  stream = "";
  done = true;
  action = action;
  status = status;
  services = services;
}

unfoldable pub close_with : String → String → List ServiceState → DeployLog → DeployLog
unfolding offer_each
close_with action status services dl = if dl.closed then dl else record {
  history = dl.history ++ done_line action status services ∷ [];
  subscribers = offer_each (done_line action status services) true dl.subscribers;
  closed = true;
}

-- The store of the logs stands beside the two maps.
pub record Tracker : Type 0 where
  pub flights : Dict String ℕ
  pub logs : Dict String ℕ
  pub store : Dict ℕ DeployLog

unfoldable pub new_tracker : Tracker
new_tracker = record { flights = []; logs = []; store = [] }

unfoldable pub track : String → ℕ → Tracker → Tracker
track slug cancel t = record t { flights = insert slug cancel t.flights }

unfoldable pub done_flight : String → Tracker → Tracker
done_flight slug t = record t { flights = erase slug t.flights }

abbrev pub cancelled : String → Tracker → Option ℕ → Tracker × Option ℕ
cancelled slug t none = (t, none)
cancelled slug t (some cancel) = (record t { flights = erase slug t.flights }, some cancel)

-- The function that is called, or `none`, the error.
unfoldable pub cancel_flight : String → Tracker → Tracker × Option ℕ
cancel_flight slug t = cancelled slug t (lookup slug t.flights)

abbrev pub is_some {ℓ} : {A : Type ℓ} → Option A → Bool
is_some none = false
is_some (some a) = true

unfoldable pub is_deploying : String → Tracker → Bool
is_deploying slug t = is_some (lookup slug t.flights)

-- `id` is the number of the new log; the result says whether there is one.
unfoldable pub track_with_log : String → ℕ → ℕ → Tracker → Tracker × Bool
unfolding new_deploy_log
track_with_log slug cancel id t = if is_some (lookup slug t.logs) then (t, false) else (
  record {
    flights = insert slug cancel t.flights;
    logs = insert slug id t.logs;
    store = insert id new_deploy_log t.store;
  },
  true,
)

abbrev pub close_at :
    String → String → List ServiceState → ℕ → Option DeployLog → Dict ℕ DeployLog → Dict ℕ DeployLog
close_at action status services id none store = store
close_at action status services id (some dl) store =
    insert id (close_with action status services dl) store

abbrev pub close_log :
    String → String → List ServiceState → Option ℕ → Dict ℕ DeployLog → Dict ℕ DeployLog
close_log action status services none store = store
close_log action status services (some id) store =
    close_at action status services id (lookup id store) store

unfoldable pub done_with_log : String → String → String → List ServiceState → Tracker → Tracker
unfolding close_with
done_with_log slug action status services t = record {
  flights = erase slug t.flights;
  logs = erase slug t.logs;
  store = close_log action status services (lookup slug t.logs) t.store;
}

abbrev subscribe_at : ℕ → Tracker → ℕ → Option DeployLog → Tracker × Option Channel
subscribe_at ch t id none = (t, none)
subscribe_at ch t id (some dl) =
    let (dl', channel) = subscribe_log ch dl in
    (record t { store = insert id dl' t.store }, some channel)

abbrev subscribe_named : ℕ → Tracker → Option ℕ → Tracker × Option Channel
subscribe_named ch t none = (t, none)
subscribe_named ch t (some id) = subscribe_at ch t id (lookup id t.store)

-- `none` when no logged deploy of the app runs.
unfoldable pub subscribe_flight : ℕ → String → Tracker → Tracker × Option Channel
unfolding subscribe_log
subscribe_flight ch slug t = subscribe_named ch t (lookup slug t.logs)
