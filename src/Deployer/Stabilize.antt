-- ===== src/Deployer/Stabilize.antt =====
-- internal/deployer/stabilize.go: the poll loop after `docker compose up`, and the merge of
-- replicas. What docker answers is an argument: one list of states for each poll.
pub mod Outcome
pub mod Merge
use simpledeploy.Prelude.{
  ℕ, zero, suc, ◌+◌, ◌-◌, String, Bool, true, false, not, ◌&&◌, ◌||◌, Option, none, some, List, [],
  ◌∷◌, ltb, if◌then◌else◌, ◌==◌, string_eq, any,
}
use simpledeploy.Prelude.Dict.{Dict, lookup, insert}

pub record ServiceState : Type 0 where
  pub service : String
  pub state : String
  pub health : String
  pub restart_count : ℕ
  pub exit_code : ℕ

-- The restart counts of the first poll.
unfoldable pub baseline : Dict String ℕ → List ServiceState → Dict String ℕ
baseline m [] = m
baseline m (s ∷ ss) = baseline (insert s.service s.restart_count m) ss

abbrev pub count_or_zero : Option ℕ → ℕ
count_or_zero none = 0
count_or_zero (some n) = n

-- The count since the first poll; a count that fell is 0, as is the truncated difference.
unfoldable pub relative : Dict String ℕ → ServiceState → ServiceState
relative initial s = record s {
  restart_count = s.restart_count - count_or_zero (lookup s.service initial);
}

unfoldable pub all_relative : Dict String ℕ → List ServiceState → List ServiceState
unfolding relative
all_relative initial [] = []
all_relative initial (s ∷ ss) = relative initial s ∷ all_relative initial ss

abbrev pub is_restarting : ServiceState → Bool
is_restarting s = s.state == "restarting"

abbrev pub is_exited : ServiceState → Bool
is_exited s = s.state == "exited" || s.state == "dead"

abbrev pub is_unhealthy : ServiceState → Bool
is_unhealthy s = s.health == "unhealthy"

abbrev pub is_starting : ServiceState → Bool
is_starting s = s.health == "starting"

abbrev pub is_bounced : ServiceState → Bool
is_bounced s = ltb 0 s.restart_count

-- The test under which the loop returns "success".
unfoldable pub settled : List ServiceState → Bool
settled ss =
    not (any is_restarting ss)
    && not (any is_exited ss)
    && not (any is_unhealthy ss)
    && not (any is_starting ss)
    && not (any is_bounced ss)

pub data Verdict : Type 0 where
  success unstable : Verdict

-- One poll: what docker answered (nothing, if the query failed), whether the deadline is past after
-- it, and whether the context is cancelled in the wait that follows.
pub record Poll : Type 0 where
  pub states : List ServiceState
  pub late : Bool
  pub cancelled : Bool

-- The first poll that is counted from.
abbrev pub base_of : Option (Dict String ℕ) → List ServiceState → Dict String ℕ
base_of none ss = baseline [] ss
base_of (some m) ss = m

-- The rounds of the loop. The list of polls ends the loop too, with `none`: the model saw no more.
unfoldable pub poll_loop : Option (Dict String ℕ) → List Poll → Option (Verdict × List ServiceState)
poll_loop initial [] = none
poll_loop initial (p ∷ ps) =
    let base = base_of initial p.states in
    let services = all_relative base p.states in
    let rest = poll_loop (some base) ps in
    if settled services
    then some (success, services)
    else if p.late
    then some (unstable, services)
    else if p.cancelled
    then some (unstable, services)
    else rest

unfoldable pub stabilize : List Poll → Option (Verdict × List ServiceState)
unfolding poll_loop
stabilize ps = poll_loop none ps

unfoldable pub rank_of : String → String → ℕ
rank_of state health =
    if state == "exited" || state == "dead"
    then 4
    else if state == "restarting"
    then 3
    else if state == "created" || state == "paused"
    then 2
    else if state == "running"
    then (if health == "unhealthy" then 5 else if health == "starting" then 1 else 0)
    else 1

abbrev pub rank : ServiceState → ℕ
rank s = rank_of s.state s.health

unfoldable pub merge_worst : ServiceState → ServiceState → ServiceState
merge_worst a b =
    let worse =
      if ltb (rank a) (rank b)
      then record a { state = b.state; health = b.health; exit_code = b.exit_code }
      else a in
    if ltb a.restart_count b.restart_count
    then record worse { restart_count = b.restart_count }
    else worse

-- `queryProjectStates` behind the calls of docker: one state for each container, merged by service.
abbrev pub merged : ServiceState → Option ServiceState → ServiceState
merged s none = s
merged s (some old) = merge_worst old s

unfoldable pub merge_all : List ServiceState → Dict String ServiceState → Dict String ServiceState
merge_all [] m = m
merge_all (s ∷ ss) m = merge_all ss (insert s.service (merged s (lookup s.service m)) m)
