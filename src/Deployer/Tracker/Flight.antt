-- ===== src/Deployer/Tracker/Flight.antt =====
-- One deploy for each app at a time, and what a late subscriber reads.
use simpledeploy.Prelude.{
  ℕ, zero, suc, ◌+◌, String, ◌≡◌, refl, arith, sym, ap, append-nil, inl, inr, true, false, Option,
  none, some, List, [], ◌∷◌, ◌++◌, All, length, ltb, ◌==◌, string_eq, nat_eq, Bool-cases, beq_self,
}
use simpledeploy.Prelude.Dict.{lookup, lookup-insert, lookup-erase}
use simpledeploy.Deployer.Stabilize.{ServiceState}
use simpledeploy.Deployer.Tracker.{
  OutputLine, DeployLog, channel_capacity, replay, subscribe_log, Tracker, track, done_flight,
  cancel_flight, cancelled, is_some, track_with_log, done_with_log,
}

-- The calls on the tracker, each one step under its mutex.
pub data Call : Type 0 where
  track_call : String → ℕ → Call
  done_call : String → Call
  cancel_call : String → Call
  track_log_call : String → ℕ → ℕ → Call
  done_log_call : String → String → String → List ServiceState → Call

unfoldable pub step : Call → Tracker → Tracker
step (track_call s c) t = track s c t
step (done_call s) t = done_flight s t
step (cancel_call s) t = (cancel_flight s t).0
step (track_log_call s c id) t = (track_with_log s c id t).0
step (done_log_call s a st ss) t = done_with_log s a st ss t

unfoldable pub run : List Call → Tracker → Tracker
run [] t = t
run (c ∷ cs) t = run cs (step c t)

-- The call does not end the logged deploy of `slug`.
abbrev pub Continues : String → Call → Type 0
Continues slug (done_log_call s a st ss) = (s == slug) ≡ false
Continues slug (track_call s c) = Unit
Continues slug (done_call s) = Unit
Continues slug (cancel_call s) = Unit
Continues slug (track_log_call s c id) = Unit

logs-cancelled : (s : String) (t : Tracker) (o : Option ℕ) → (cancelled s t o).0.logs ≡ t.logs
logs-cancelled s t none = refl
logs-cancelled s t (some c) = refl

logs-track_with_log :
    (slug : String) (id : ℕ) (s : String) (c i : ℕ) (t : Tracker)
    → lookup slug t.logs ≡ some id
    → lookup slug (track_with_log s c i t).0.logs ≡ some id
unfolding track_with_log
logs-track_with_log slug id s c i t h = elim (Bool-cases (is_some (lookup s t.logs))) [
  | inl busy ↦ rw busy h
  | inr free ↦ elim (Bool-cases (s == slug)) [
    | inl same ↦
        let at_slug = (string_eq.beq_iff s slug).0 same in
        let free' : is_some (lookup slug t.logs) ≡ false = rw (← at_slug) free in cc
    | inr other ↦ rw (free, lookup-insert, other) h
  ]
]

step-logs :
    (slug : String) (id : ℕ) (c : Call) (t : Tracker)
    → Continues slug c
    → lookup slug t.logs ≡ some id
    → lookup slug (step c t).logs ≡ some id
unfolding step track done_flight cancel_flight track_with_log done_with_log
step-logs slug id (track_call s c) t ok h = h
step-logs slug id (done_call s) t ok h = h
step-logs slug id (cancel_call s) t ok h = rw (logs-cancelled s t (lookup s t.flights)) h
step-logs slug id (track_log_call s c i) t ok h = logs-track_with_log slug id s c i t h
step-logs slug id (done_log_call s a st ss) t ok h = rw (lookup-erase, ok) h

run-logs :
    (slug : String) (id : ℕ) (cs : List Call) (t : Tracker)
    → All (Continues slug) cs
    → lookup slug t.logs ≡ some id
    → lookup slug (run cs t).logs ≡ some id
unfolding run
run-logs slug id [] t ok h = h
run-logs slug id (c ∷ cs) t (okc, ok) h =
    run-logs slug id cs (step c t) ok (step-logs slug id c t okc h)

track_with_log-logs :
    (slug : String) (cancel id : ℕ) (t : Tracker)
    → (track_with_log slug cancel id t).1 ≡ true
    → lookup slug (track_with_log slug cancel id t).0.logs ≡ some id
unfolding track_with_log
track_with_log-logs slug cancel id t started = elim (Bool-cases (is_some (lookup slug t.logs))) [
  | inl busy ↦ let off = rw busy at started in cc
  | inr free ↦ rw (free, lookup-insert, beq_self slug) refl
]

-- Once a logged deploy of an app has started, no other starts before its own end, whatever calls
-- come between: each try is refused and changes nothing.
pub track_with_log-once :
    (slug : String) (cancel id cancel' id' : ℕ) (t : Tracker) (cs : List Call)
    → All (Continues slug) cs
    → (track_with_log slug cancel id t).1 ≡ true
    → track_with_log slug cancel' id' (run cs (track_with_log slug cancel id t).0)
      ≡ (run cs (track_with_log slug cancel id t).0, false)
unfolding track_with_log
track_with_log-once slug cancel id cancel' id' t cs ok started =
    let held =
      run-logs slug id cs (track_with_log slug cancel id t).0 ok
        (track_with_log-logs slug cancel id t started) in
    rw held refl

-- The first lines of a list.
abbrev pub first_lines : ℕ → List OutputLine → List OutputLine
first_lines zero ls = []
first_lines (suc n) [] = []
first_lines (suc n) (l ∷ ls) = l ∷ first_lines n ls

length-append_one :
    (queue : List OutputLine) (l : OutputLine) → length (queue ++ l ∷ []) ≡ length queue + 1
length-append_one [] l = refl
length-append_one (q ∷ qs) l = omega (arith, length-append_one qs l)

append_one :
    (queue : List OutputLine) (l : OutputLine) (ls : List OutputLine)
    → (queue ++ l ∷ []) ++ ls ≡ queue ++ (l ∷ ls)
append_one [] l ls = refl
append_one (q ∷ qs) l ls = cc (append_one qs l ls)

first_nil : (n : ℕ) → first_lines n [] ≡ []
first_nil zero = refl
first_nil (suc n) = refl

first_zero : (ls : List OutputLine) → first_lines zero ls ≡ []
first_zero ls = refl

replay-room :
    (n : ℕ) (ls queue : List OutputLine)
    → length queue + n ≡ channel_capacity
    → replay ls queue ≡ queue ++ first_lines n ls
unfolding replay
replay-room n [] queue room = rw (first_nil n) (sym (append-nil queue))
replay-room zero (l ∷ ls) queue room =
    let full : ltb (length queue) channel_capacity ≡ false = ground arith in
    rw (full, replay-room zero ls queue room) (ap (◌++◌ queue) (first_zero ls))
replay-room (suc n) (l ∷ ls) queue room =
    let fits : ltb (length queue) channel_capacity ≡ true = ground arith in
    rw (fits, replay-room n ls (queue ++ l ∷ []) (omega (arith, length-append_one queue l)))
      (append_one queue l (first_lines n ls))

-- A subscriber that comes late is sent the first lines of the history that its channel can hold,
-- and no later one.
pub subscribe_log-first_lines :
    (id : ℕ) (dl : DeployLog)
    → (subscribe_log id dl).1.queue ≡ first_lines channel_capacity dl.history
unfolding subscribe_log
subscribe_log-first_lines id dl = elim (Bool-cases dl.closed) [
  | inl e ↦ rw e (replay-room channel_capacity dl.history [] refl)
  | inr e ↦ rw e (replay-room channel_capacity dl.history [] refl)
]
