-- ===== src/Proxy/RateLimit/Rate.antt =====
-- How many requests one bucket lets through.
use native.Mathlib.Decide.{dec_lt}
use simpledeploy.Prelude.{
  ◌⊎◌, ℕ, zero, suc, ◌+◌, ◌-◌, ◌*◌, ◌≤◌, ◌<◌, ◌≡◌, arith, true, List, [], ◌∷◌, if◌then◌else◌, All,
  ltb,
}
use simpledeploy.Proxy.RateLimit.{RlBucket, DomainLimiter, refill, spend, use_bucket}

module _ (d : DomainLimiter) where
  -- The requests that pass when they reach the bucket at these times, in order.
  unfoldable pub passed : RlBucket → List ℕ → ℕ
  passed b [] = 0
  passed b (t ∷ ts) = let (b', ok) = use_bucket d t b in (if ok then 1 else 0) + passed b' ts

  abbrev pub left : RlBucket → ℕ
  left b = b.tokens + b.spare

  spend-left :
      (b : RlBucket)
      → (left (spend b).0 + (if (spend b).1 then 1 else 0) ≡ left b)
        × ((spend b).0.last_reset ≡ b.last_reset)
        × ((spend b).1 ≡ ltb 0 (left b))
  unfolding spend
  spend-left b = ground arith

  refill_closed :
      (t : ℕ) (b : RlBucket)
      → t < b.last_reset + d.window
      → (left (refill d t b) ≡ left b) × ((refill d t b).last_reset ≡ b.last_reset)
  unfolding refill
  refill_closed t b h = ground arith

  pub use_closed :
      (t : ℕ) (b : RlBucket)
      → t < b.last_reset + d.window
      → (left (use_bucket d t b).0 ≡ left b - 1)
        × ((use_bucket d t b).0.last_reset ≡ b.last_reset)
        × ((use_bucket d t b).1 ≡ ltb 0 (left b))
  unfolding use_bucket
  use_closed t b h = ground (arith, refill_closed t b h, spend-left (refill d t b))

  refill_open :
      (t : ℕ) (b : RlBucket)
      → b.last_reset + d.window ≤ t
      → (left (refill d t b) ≤ d.requests + d.burst + left b) × ((refill d t b).last_reset ≡ t)
  unfolding refill
  refill_open t b h = ground arith

  use_any :
      (t : ℕ) (b : RlBucket)
      → left (use_bucket d t b).0 + (if (use_bucket d t b).1 then 1 else 0) ≡ left (refill d t b)
  unfolding use_bucket
  use_any t b = ground (arith, spend-left (refill d t b))

  use_reset : (t : ℕ) (b : RlBucket) → (use_bucket d t b).0.last_reset ≡ (refill d t b).last_reset
  unfolding use_bucket
  use_reset t b = ground (arith, spend-left (refill d t b))

  -- What one use leaves in a bucket, its time, and the windows that are left.
  after_closed :
      (t : ℕ) (b : RlBucket)
      → t < b.last_reset + d.window
      → ((use_bucket d t b).0.last_reset ≡ b.last_reset)
        × (left (use_bucket d t b).0 + (if (use_bucket d t b).1 then 1 else 0) ≡ left b)
  after_closed t b h = (
    omega (arith, use_reset t b, (refill_closed t b h).1),
    omega (arith, use_any t b, (refill_closed t b h).0),
  )

  after_open :
      (t : ℕ) (b : RlBucket)
      → b.last_reset + d.window ≤ t
      → ((use_bucket d t b).0.last_reset ≡ t)
        × (left (use_bucket d t b).0 + (if (use_bucket d t b).1 then 1 else 0)
            ≤ d.requests + d.burst + left b)
  after_open t b h = (
    omega (arith, use_reset t b, (refill_open t b h).1),
    omega (arith, use_any t b, (refill_open t b h).0),
  )

  passed_by :
      (n close : ℕ) (ts : List ℕ) (b : RlBucket)
      → close ≤ b.last_reset + (n + 1) * d.window
      → All (λ t. t < close) ts
      → passed b ts ≤ left b + n * (d.requests + d.burst)
  unfolding passed
  passed_by n close [] b e h = omega arith
  passed_by zero close (t ∷ ts) b e (ht, h) =
      let (same, fewer) = after_closed t b (omega arith) in
      let rest = passed_by zero close ts (use_bucket d t b).0 (omega arith) h in omega arith
  passed_by (suc n) close (t ∷ ts) b e (ht, h) = elim (dec_lt t (b.last_reset + d.window)) [
    | yes closed ↦
        let (same, fewer) = after_closed t b closed in
        let rest = passed_by (suc n) close ts (use_bucket d t b).0 (omega arith) h in omega arith
    | no over ↦
        let (reset, bound) = after_open t b (omega arith) in
        let rest = passed_by n close ts (use_bucket d t b).0 (omega arith) h in omega arith
  ]

  -- In the time of `n + 1` windows a bucket lets through at most what it has left and `n` times the
  -- rate with its burst, however the requests are spread.
  pub passed-le :
      (n : ℕ) (ts : List ℕ) (b : RlBucket)
      → All (λ t. t < b.last_reset + (n + 1) * d.window) ts
      → passed b ts ≤ b.tokens + b.spare + n * (d.requests + d.burst)
  passed-le n ts b h = passed_by n (b.last_reset + (n + 1) * d.window) ts b (omega arith) h

  -- Each time a window is over, the client had gone past its tokens and a second window is not over.
  abbrev pub KeepsOver : RlBucket → List ℕ → Type 0
  KeepsOver b [] = Unit
  KeepsOver b (t ∷ ts) =
      ((t < b.last_reset + d.window) ⊎ ((b.over ≡ true) × (t < b.last_reset + 2 * d.window)))
      × KeepsOver (use_bucket d t b).0 ts

  refill_steady :
      (t : ℕ) (b : RlBucket)
      → b.last_reset + d.window ≤ t
      → (t < b.last_reset + d.window) ⊎ ((b.over ≡ true) × (t < b.last_reset + 2 * d.window))
      → left (refill d t b) ≤ d.requests + left b
  unfolding refill
  refill_steady t b h k = ground arith

  steady_by :
      (n close : ℕ) (ts : List ℕ) (b : RlBucket)
      → close ≤ b.last_reset + (n + 1) * d.window
      → All (λ t. t < close) ts
      → KeepsOver b ts
      → passed b ts ≤ left b + n * d.requests
  unfolding passed
  steady_by n close [] b e h k = omega arith
  steady_by zero close (t ∷ ts) b e (ht, h) (kt, k) =
      let (same, fewer) = after_closed t b (omega arith) in
      let rest = steady_by zero close ts (use_bucket d t b).0 (omega arith) h k in omega arith
  steady_by (suc n) close (t ∷ ts) b e (ht, h) (kt, k) = elim (dec_lt t (b.last_reset + d.window)) [
    | yes closed ↦
        let (same, fewer) = after_closed t b closed in
        let rest = steady_by (suc n) close ts (use_bucket d t b).0 (omega arith) h k in omega arith
    | no over ↦
        let (reset, bound) = after_open t b (omega arith) in
        let rest = steady_by n close ts (use_bucket d t b).0 (omega arith) h k in
        omega (arith, use_any t b, refill_steady t b (omega arith) kt)
  ]

  -- A client that keeps going over is held to the steady rate: in the time of `n + 1` windows it
  -- gets what was left at the start and `n` times the rate, and no new burst.
  pub steady-le :
      (n : ℕ) (ts : List ℕ) (b : RlBucket)
      → All (λ t. t < b.last_reset + (n + 1) * d.window) ts
      → KeepsOver b ts
      → passed b ts ≤ b.tokens + b.spare + n * d.requests
  steady-le n ts b h k = steady_by n (b.last_reset + (n + 1) * d.window) ts b (omega arith) h k
