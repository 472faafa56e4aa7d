-- ===== src/Deployer/Stabilize/Outcome.antt =====
-- When the wait ends, and with which status.
use simpledeploy.Prelude.{
  ℕ, ◌≡◌, ◌⊎◌, inl, inr, refl, arith, String, Bool, true, false, not, ◌&&◌, ◌||◌, Option, none,
  some, List, [], ◌∷◌, ltb, string_eq, any, All, ◌≢◌, Option-cases,
}
use simpledeploy.Prelude.Dict.{Dict}
use simpledeploy.Deployer.Stabilize.{
  ServiceState, baseline, base_of, relative, all_relative, is_restarting, is_exited, is_unhealthy,
  is_starting, is_bounced, settled, Verdict, success, unstable, Poll, poll_loop, stabilize,
}

ends_right :
    (initial : Option (Dict String ℕ)) (ps : List Poll) (v : Verdict) (ss : List ServiceState)
    → poll_loop initial ps ≡ some (v, ss)
    → (v ≡ success → settled ss ≡ true) × (v ≡ unstable → settled ss ≡ false)
unfolding poll_loop
ends_right initial [] v ss h = ground arith
ends_right initial (p ∷ ps) v ss h =
    ground (arith, ends_right (some (base_of initial p.states)) ps v ss)

-- The service neither restarts, exited, is unhealthy, is starting, nor has restarted in the wait.
abbrev pub IsCalm : ServiceState → Type 0
IsCalm s =
    (is_restarting s ≡ false)
    × (is_exited s ≡ false)
    × (is_unhealthy s ≡ false)
    × (is_starting s ≡ false)
    × (s.restart_count ≡ 0)

none_set :
    (a b c d e : Bool)
    → (not a && not b && not c && not d && not e) ≡ true
    → (a ≡ false) × (b ≡ false) × (c ≡ false) × (d ≡ false) × (e ≡ false)
none_set a b c d e h = ground arith

still : (n : ℕ) → ltb 0 n ≡ false → n ≡ 0
still n h = ground arith

any-cons {ℓ} :
    {A : Type ℓ} (f : A → Bool) (x : A) (xs : List A)
    → any f (x ∷ xs) ≡ false
    → (f x ≡ false) × (any f xs ≡ false)
any-cons f x xs h = ground arith

flags :
    (ss : List ServiceState)
    → settled ss ≡ true
    → (any is_restarting ss ≡ false)
      × (any is_exited ss ≡ false)
      × (any is_unhealthy ss ≡ false)
      × (any is_starting ss ≡ false)
      × (any is_bounced ss ≡ false)
unfolding settled
flags ss h =
    none_set (any is_restarting ss) (any is_exited ss) (any is_unhealthy ss) (any is_starting ss)
      (any is_bounced ss) h

IsCalm-All :
    (ss : List ServiceState)
    → any is_restarting ss ≡ false
    → any is_exited ss ≡ false
    → any is_unhealthy ss ≡ false
    → any is_starting ss ≡ false
    → any is_bounced ss ≡ false
    → All IsCalm ss
IsCalm-All [] a b c d e = tt
IsCalm-All (s ∷ ss) a b c d e =
    let (a₁, a₂) = any-cons is_restarting s ss a in
    let (b₁, b₂) = any-cons is_exited s ss b in
    let (c₁, c₂) = any-cons is_unhealthy s ss c in
    let (d₁, d₂) = any-cons is_starting s ss d in
    let (e₁, e₂) = any-cons is_bounced s ss e in
    ((a₁, b₁, c₁, d₁, still s.restart_count e₁), IsCalm-All ss a₂ b₂ c₂ d₂ e₂)

settled-All : (ss : List ServiceState) → settled ss ≡ true → All IsCalm ss
settled-All ss h = let (a, b, c, d, e) = flags ss h in IsCalm-All ss a b c d e

All-settled : (ss : List ServiceState) → All IsCalm ss → settled ss ≡ true
unfolding settled
All-settled [] h = refl
All-settled (s ∷ ss) (calm, h) = ground (arith, All-settled ss h)

-- With the status "success" no service that is returned restarts, exited, is unhealthy, is
-- starting, or has restarted since the first poll.
pub stabilize_success :
    (ps : List Poll) (ss : List ServiceState) → stabilize ps ≡ some (success, ss) → All IsCalm ss
unfolding stabilize
stabilize_success ps ss h = settled-All ss ((ends_right none ps success ss h).0 refl)

-- With the status "unstable" some service that is returned does.
pub stabilize_unstable :
    (ps : List Poll) (ss : List ServiceState)
    → stabilize ps ≡ some (unstable, ss)
    → ¬ (All IsCalm ss)
unfolding stabilize
stabilize_unstable ps ss h all = cc ((ends_right none ps unstable ss h).1 refl, All-settled ss all)

loop_ends :
    (initial : Option (Dict String ℕ)) (ps : List Poll)
    → any (λ p. p.late || p.cancelled) ps ≡ true
    → poll_loop initial ps ≢ none
unfolding poll_loop
loop_ends initial [] h = cc
loop_ends initial (p ∷ ps) h = ground (arith, loop_ends (some (base_of initial p.states)) ps)

-- The wait ends: by the first poll that ends after the deadline, or whose wait is cancelled.
pub stabilize_ends :
    (ps : List Poll)
    → any (λ p. p.late || p.cancelled) ps ≡ true
    → (r : Verdict × List ServiceState) × (stabilize ps ≡ some r)
unfolding stabilize
stabilize_ends ps h = elim (Option-cases (poll_loop none ps)) [
  | inl e ↦ absurd (loop_ends none ps h e)
  | inr q ↦ q
]

-- A service that docker created or paused, with no health check and no restart.
abbrev pub NotRunning : ServiceState → Type 0
NotRunning s =
    ((s.state ≡ "created") ⊎ (s.state ≡ "paused")) × (s.health ≡ "") × (s.restart_count ≡ 0)

relative-IsCalm : (m : Dict String ℕ) (s : ServiceState) → NotRunning s → IsCalm (relative m s)
unfolding relative
relative-IsCalm m s (inl a, b, c) = rw (a, b, c) (refl, refl, refl, refl, omega arith)
relative-IsCalm m s (inr a, b, c) = rw (a, b, c) (refl, refl, refl, refl, omega arith)

all_relative-IsCalm :
    (m : Dict String ℕ) (ss : List ServiceState)
    → All NotRunning ss
    → All IsCalm (all_relative m ss)
unfolding all_relative
all_relative-IsCalm m [] h = tt
all_relative-IsCalm m (s ∷ ss) (hs, h) = (relative-IsCalm m s hs, all_relative-IsCalm m ss h)

-- The first poll ends the wait with "success" when no container runs: each is created or paused
-- only, or docker has answered with none at all, which is what a failed query leaves.
pub NotRunning-succeeds :
    (p : Poll) (ps : List Poll)
    → All NotRunning p.states
    → stabilize (p ∷ ps) ≡ some (success, all_relative (baseline [] p.states) p.states)
unfolding stabilize poll_loop
NotRunning-succeeds p ps h =
    let m = baseline [] p.states in
    rw (All-settled (all_relative m p.states) (all_relative-IsCalm m p.states h))
