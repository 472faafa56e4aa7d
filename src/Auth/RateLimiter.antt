-- ===== src/Auth/RateLimiter.antt =====
-- internal/auth/ratelimit.go: tokens per key and window. Times are nanoseconds; a test on a
-- difference of times is written with the sum on the other side.
pub mod Window
use simpledeploy.Prelude.{
  ℕ, ◌+◌, ◌-◌, ◌*◌, String, Bool, true, false, not, Option, none, some, [], ltb, leb, if◌then◌else◌,
  length, string_eq,
}
use simpledeploy.Prelude.Dict.{Dict, lookup, insert, filter}

-- `tokens` is an int that is read only by `<= 0` and lowered only when positive, so that
-- `limit - 1` at limit 0 and the number 0 behave alike.
pub record Bucket : Type 0 where
  pub tokens : ℕ
  pub last_reset : ℕ

pub record RateLimiter : Type 0 where
  pub limit : ℕ
  pub window : ℕ
  pub buckets : Dict String Bucket

unfoldable pub new : ℕ → ℕ → RateLimiter
new limit window = record { limit = limit; window = window; buckets = [] }

-- `lastReset.Before(now - 2*window)`.
unfoldable pub stale : ℕ → ℕ → Bucket → Bool
stale window now b = ltb (b.last_reset + 2 * window) now

-- The periodic cleanup, above a hundred buckets.
unfoldable pub swept : RateLimiter → ℕ → Dict String Bucket
swept rl now =
    if ltb 100 (length rl.buckets)
    then filter (λ b. not (stale rl.window now b)) rl.buckets
    else rl.buckets

abbrev pub take_token :
    RateLimiter → Dict String Bucket → String → ℕ → Option Bucket → RateLimiter × Bool
take_token rl buckets key now none = (
  record rl { buckets = insert key (record { tokens = rl.limit - 1; last_reset = now }) buckets },
  true,
)
take_token rl buckets key now (some b) =
    if leb (b.last_reset + rl.window) now
    then (
      record rl {
        buckets = insert key (record { tokens = rl.limit - 1; last_reset = now }) buckets;
      },
      true,
    )
    else if leb b.tokens 0
    then (record rl { buckets = buckets }, false)
    else (
      record rl {
        buckets = insert key (record { tokens = b.tokens - 1; last_reset = b.last_reset }) buckets;
      },
      true,
    )

unfoldable pub allow : RateLimiter → String → ℕ → RateLimiter × Bool
allow rl key now = let buckets = swept rl now in take_token rl buckets key now (lookup key buckets)
