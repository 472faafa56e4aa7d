-- ===== src/Auth/RateLimiter/Window.antt =====
-- How many requests of a key pass in one window.
use Prim.Native.Nat.{min}
use simpledeploy.Prelude.{
  ℕ, ◌+◌, ◌-◌, ◌≤◌, ◌<◌, String, ◌≡◌, refl, Bool, true, false, not, Option, none, some, List, [],
  ◌∷◌, arith, if◌then◌else◌, ◌==◌, string_eq, All, Bool-cases, inl, inr, ltb, length, beq_self,
}
use simpledeploy.Prelude.Dict.{
  Dict, IsMap, lookup-filter, keeping, lookup, insert, lookup-insert, lookup-filter_kept,
}
use simpledeploy.Auth.RateLimiter.{Bucket, RateLimiter, stale, swept, take_token, allow}

pub record Request : Type 0 where
  pub key : String
  pub at : ℕ

-- The requests of `key` that pass when `rs` arrive in order.
unfoldable pub passed : RateLimiter → String → List Request → ℕ
passed rl key [] = 0
passed rl key (r ∷ rs) =
    let (rl', ok) = allow rl r.key r.at in
    (if (r.key == key) then (if ok then 1 else 0) else 0) + passed rl' key rs

abbrev pub asked : String → List Request → ℕ
asked key [] = 0
asked key (r ∷ rs) = (if r.key == key then 1 else 0) + asked key rs

abbrev pub fresh : RateLimiter → ℕ → Bucket
fresh rl now = record { tokens = rl.limit - 1; last_reset = now }

abbrev spend : Bucket → Bucket
spend b = record { tokens = b.tokens - 1; last_reset = b.last_reset }

-- A bucket whose window is open at `now` survives the cleanup.
lookup-swept :
    (rl : RateLimiter) (key : String) (now : ℕ) (b : Bucket)
    → lookup key rl.buckets ≡ some b
    → now < b.last_reset + rl.window
    → lookup key (swept rl now) ≡ some b
unfolding swept stale
lookup-swept rl key now b h open_window =
    ground (
      arith,
      lookup-filter_kept (λ c. not (stale rl.window now c)) key b rl.buckets h (ground arith),
    )

module _ (rl : RateLimiter) (buckets : Dict String Bucket) (key : String) (now : ℕ)
    (b : Bucket) where
  take_other :
      (j : String) (o : Option Bucket)
      → lookup key buckets ≡ some b
      → (j == key) ≡ false
      → (lookup key (take_token rl buckets j now o).0.buckets ≡ some b)
        × ((take_token rl buckets j now o).0.window ≡ rl.window)
  take_other j none h ne = ground (arith, lookup-insert j key (fresh rl now) buckets)
  take_other j (some c) h ne =
      ground
        (arith, lookup-insert j key (fresh rl now) buckets, lookup-insert j key (spend c) buckets)

  take_self :
      lookup key buckets ≡ some b
      → now < b.last_reset + rl.window
      → (lookup key (take_token rl buckets key now (some b)).0.buckets ≡ some (spend b))
        × ((take_token rl buckets key now (some b)).0.window ≡ rl.window)
        × ((take_token rl buckets key now (some b)).1 ≡ ltb 0 b.tokens)
  take_self h open_window = ground (arith, lookup-insert key key (spend b) buckets, beq_self key)

-- A request of another key leaves the bucket alone.
allow_other :
    (rl : RateLimiter) (key j : String) (now : ℕ) (b : Bucket)
    → lookup key rl.buckets ≡ some b
    → now < b.last_reset + rl.window
    → (j == key) ≡ false
    → (lookup key (allow rl j now).0.buckets ≡ some b) × ((allow rl j now).0.window ≡ rl.window)
unfolding allow
allow_other rl key j now b h open_window ne =
    take_other rl (swept rl now) key now b j (lookup j (swept rl now))
      (lookup-swept rl key now b h open_window) ne

-- A request of the key takes a token if there is one.
allow_self :
    (rl : RateLimiter) (key : String) (now : ℕ) (b : Bucket)
    → lookup key rl.buckets ≡ some b
    → now < b.last_reset + rl.window
    → (lookup key (allow rl key now).0.buckets
        ≡ some (record { tokens = b.tokens - 1; last_reset = b.last_reset }))
      × ((allow rl key now).0.window ≡ rl.window)
      × ((allow rl key now).1 ≡ ltb 0 b.tokens)
unfolding allow
allow_self rl key now b h open_window =
    let kept = lookup-swept rl key now b h open_window in
    rw kept (take_self rl (swept rl now) key now b kept open_window)

passed_until :
    (close : ℕ) (rs : List Request) (rl : RateLimiter) (key : String) (b : Bucket)
    → b.last_reset + rl.window ≡ close
    → lookup key rl.buckets ≡ some b
    → All (λ r. r.at < close) rs
    → passed rl key rs ≡ min (asked key rs) b.tokens
unfolding passed
passed_until close [] rl key b e h times = omega arith
passed_until close (r ∷ rs) rl key b e h (ht, times) = elim (Bool-cases (r.key == key)) [
  | inl same ↦
      let at_key = (string_eq.beq_iff r.key key).0 same in
      let (found, window, ok) = allow_self rl key r.at b h (omega arith) in
      let rest = passed_until close rs (allow rl key r.at).0 key (spend b) (cc) found times in
      rw (at_key, beq_self key, ok, rest) (ground arith)
  | inr other ↦
      let (found, window) = allow_other rl key r.key r.at b h (omega arith) other in
      let rest = passed_until close rs (allow rl r.key r.at).0 key b (cc) found times in
      rw (other, rest) (omega arith)
]

-- While the window of a bucket is open, its key passes exactly as often as it asks, up to the
-- tokens left, whatever other keys do between and whatever the cleanup removes.
pub passed_in_window :
    (rs : List Request) (rl : RateLimiter) (key : String) (b : Bucket)
    → lookup key rl.buckets ≡ some b
    → All (λ r. r.at < b.last_reset + rl.window) rs
    → passed rl key rs ≡ min (asked key rs) b.tokens
passed_in_window rs rl key b h times =
    passed_until (b.last_reset + rl.window) rs rl key b refl h times

abbrev pub WindowOver : RateLimiter → ℕ → Option Bucket → Type 0
WindowOver rl now none = Unit
WindowOver rl now (some b) = b.last_reset + rl.window ≤ now

start_window :
    (rl : RateLimiter) (buckets : Dict String Bucket) (key : String) (now : ℕ) (o : Option Bucket)
    → WindowOver rl now o
    → take_token rl buckets key now o
      ≡ (record rl { buckets = insert key (fresh rl now) buckets }, true)
start_window rl buckets key now none h = refl
start_window rl buckets key now (some b) h = ground arith

keeping_over :
    (rl : RateLimiter) (now : ℕ) (keep : Bucket → Bool) (o : Option Bucket)
    → WindowOver rl now o
    → WindowOver rl now (keeping keep o)
keeping_over rl now keep none h = tt
keeping_over rl now keep (some b) h = elim (Bool-cases (keep b)) [
  | inl e ↦ rw e h
  | inr e ↦ rw e tt
]

swept_over :
    (rl : RateLimiter) (key : String) (now : ℕ)
    → IsMap rl.buckets
    → WindowOver rl now (lookup key rl.buckets)
    → WindowOver rl now (lookup key (swept rl now))
unfolding swept
swept_over rl key now m h =
    let keep = λ (b : Bucket). not (stale rl.window now b) in
    elim (Bool-cases (ltb 100 (length rl.buckets))) [
      | inl e ↦
          rw (e, lookup-filter keep key rl.buckets m)
            (keeping_over rl now keep (lookup key rl.buckets) h)
      | inr e ↦ rw e h
    ]

-- A key that is new, or whose window is over, passes and starts a window with `limit - 1` tokens.
pub window_starts :
    (rl : RateLimiter) (key : String) (now : ℕ)
    → IsMap rl.buckets
    → WindowOver rl now (lookup key rl.buckets)
    → ((allow rl key now).1 ≡ true)
      × (lookup key (allow rl key now).0.buckets ≡ some (fresh rl now))
unfolding allow
window_starts rl key now m h =
    rw (start_window rl (swept rl now) key now _ (swept_over rl key now m h))
      (refl, rw (lookup-insert, beq_self key))
