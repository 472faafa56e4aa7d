-- ===== src/Proxy/RateLimit/Present.antt =====
-- The limiter of a domain, seen by one key: while there is room, other keys do not matter.
use Prim.Native.Nat.{min}
use simpledeploy.Prelude.{
  ℕ, suc, ◌+◌, ◌*◌, ◌≤◌, ◌<◌, ◌≡◌, arith, false, some, List, [], ◌∷◌, if◌then◌else◌, All,
  Bool-cases, Option-cases, inl, inr, refl, length, ◌==◌, beq_self,
}
use simpledeploy.Prelude.Text.{Text, text_eq, text_beq_iff}
use simpledeploy.Proxy.RateLimit.{
  RlBucket, DomainLimiter, is_idle, evict_last, evict_idle, make_room, find_bucket, remove_bucket,
  front_bucket, refill, spend, use_bucket, allow_key,
}
use simpledeploy.Proxy.RateLimit.Sub.{Sub-length, evict_idle-Sub, length-remove_bucket, find-key}
use simpledeploy.Proxy.RateLimit.Rate.{use_closed}

pub record Request : Type 0 where
  pub key : Text
  pub at : ℕ

unfoldable pub passed_key : DomainLimiter → Text → List Request → ℕ
passed_key d key [] = 0
passed_key d key (r ∷ rs) =
    let (d', ok) = allow_key d r.key r.at in
    (if (r.key == key) then (if ok then 1 else 0) else 0) + passed_key d' key rs

abbrev pub asked : Text → List Request → ℕ
asked key [] = 0
asked key (r ∷ rs) = (if r.key == key then 1 else 0) + asked key rs

evict_last-cons :
    (age now : ℕ) (key : Text) (c b : RlBucket) (bs : List RlBucket)
    → find_bucket key bs ≡ some b
    → evict_last age now c bs ≡ c ∷ bs
unfolding find_bucket
evict_last-cons age now key c b [] h = cc
evict_last-cons age now key c b (x ∷ bs) h = refl

evict_last-busy :
    (age now : ℕ) (c : RlBucket) (bs : List RlBucket)
    → is_idle age now c ≡ false
    → evict_last age now c bs ≡ c ∷ bs
evict_last-busy age now c [] h = rw h
evict_last-busy age now c (x ∷ bs) h = refl

-- A bucket that is not idle stays.
find-evict :
    (age now : ℕ) (key : Text) (b : RlBucket) (bs : List RlBucket)
    → find_bucket key bs ≡ some b
    → is_idle age now b ≡ false
    → find_bucket key (evict_idle age now bs) ≡ some b
unfolding find_bucket evict_idle
find-evict age now key b [] h busy = cc
find-evict age now key b (c ∷ bs) h busy = elim (Bool-cases (c.key == key)) [
  | inl e ↦
      let same : c ≡ b = ground arith in
      rw (evict_last-busy age now c (evict_idle age now bs) (ground arith)) (ground arith)
  | inr e ↦
      let there = find-evict age now key b bs (rw e at h) busy in
      rw (evict_last-cons age now key c b (evict_idle age now bs) there) (rw e there)
]

find-remove_other :
    (key j : Text) (bs : List RlBucket)
    → (j == key) ≡ false
    → find_bucket key (remove_bucket j bs) ≡ find_bucket key bs
unfolding find_bucket remove_bucket
find-remove_other key j [] ne = refl
find-remove_other key j (c ∷ bs) ne = ground (
  arith,
  find-remove_other key j bs ne,
  text_beq_iff c.key j,
  text_beq_iff c.key key,
  text_beq_iff j key,
)

make_room_spare :
    (d : DomainLimiter) (now : ℕ) (bs : List RlBucket)
    → length bs < d.max_buckets
    → make_room d now bs ≡ bs
unfolding make_room
make_room_spare d now bs h = ground arith

-- What stands behind the front bucket of another key still has the bucket of `key`.
front_other :
    (d : DomainLimiter) (key j : Text) (now : ℕ) (bs : List RlBucket) (b : RlBucket)
    → length bs < d.max_buckets
    → (j == key) ≡ false
    → find_bucket key bs ≡ some b
    → (find_bucket key (front_bucket d j now bs (find_bucket j bs)).1 ≡ some b)
      × (length (front_bucket d j now bs (find_bucket j bs)).1 ≤ length bs)
      × ((front_bucket d j now bs (find_bucket j bs)).0.key ≡ j)
front_other d key j now bs b room ne h = elim (Option-cases (find_bucket j bs)) [
  | inl e ↦
      rw e (
        rw (make_room_spare d now bs room) h,
        rw (make_room_spare d now bs room) (omega arith),
        refl,
      )
  | inr (c, e) ↦ rw e (
    rw (find-remove_other key j bs ne) h,
    omega (arith, length-remove_bucket j bs c e),
    find-key j bs c e,
  )
]

use_stays :
    (d : DomainLimiter) (now : ℕ) (b : RlBucket)
    → ((use_bucket d now b).0.key ≡ b.key) × ((use_bucket d now b).0.last_access ≡ now)
unfolding use_bucket refill spend
use_stays d now b = ground arith

-- The bucket of `key` is there, was used after its window began, and there is room for `n` more.
pub record IsPresent (d : DomainLimiter) (key : Text) (b : RlBucket) (n : ℕ) : Type 0 where
  pub found : find_bucket key d.lru ≡ some b
  pub used : b.last_reset ≤ b.last_access
  pub room : length d.lru + n ≤ d.max_buckets

module _ (d : DomainLimiter) (key : Text) (b : RlBucket) (n now : ℕ) (p : IsPresent d key b (suc n))
    (closed : now < b.last_reset + d.window) where
  there : find_bucket key (evict_idle (2 * d.window) now d.lru) ≡ some b
  there = find-evict (2 * d.window) now key b d.lru p.found (let used = p.used in ground arith)

  space : length (evict_idle (2 * d.window) now d.lru) + n < d.max_buckets
  space = omega (arith, Sub-length (evict_idle-Sub (2 * d.window) now d.lru), p.room)

  after_other : (j : Text) → (j == key) ≡ false → IsPresent (allow_key d j now).0 key b n
  unfolding allow_key find_bucket
  after_other j ne =
      let bs = evict_idle (2 * d.window) now d.lru in
      let (found, short, named) = front_other d key j now bs b (omega (arith, space)) ne there in
      let front = front_bucket d j now bs (find_bucket j bs) in
      record {
        found = rw ((use_stays d now front.0).0, named, ne) found;
        used = p.used;
        room = omega (arith, space);
      }

  after_self :
      b.last_reset ≤ now
      → IsPresent (allow_key d key now).0 key (use_bucket d now b).0 n
        × ((allow_key d key now).1 ≡ (use_bucket d now b).1)
  unfolding allow_key find_bucket
  after_self mono =
      let bs = evict_idle (2 * d.window) now d.lru in
      let named = find-key key d.lru b p.found in
      rw there (
        record {
          found = rw ((use_stays d now b).0, named, beq_self key) refl;
          used = omega (arith, (use_closed d now b closed).1, (use_stays d now b).1);
          room = omega (arith, space, length-remove_bucket key bs b there);
        },
        refl,
      )

window-allow_key :
    (d : DomainLimiter) (key : Text) (now : ℕ) → (allow_key d key now).0.window ≡ d.window
unfolding allow_key
window-allow_key d key now = refl

passed_until :
    (start close : ℕ) (d : DomainLimiter) (key : Text) (b : RlBucket) (rs : List Request)
    → IsPresent d key b (length rs)
    → b.last_reset ≡ start
    → b.last_reset + d.window ≡ close
    → All (λ r. (start ≤ r.at) × (r.at < close)) rs
    → passed_key d key rs ≡ min (asked key rs) (b.tokens + b.spare)
unfolding passed_key
passed_until start close d key b [] p s e h = omega arith
passed_until start close d key b (r ∷ rs) p s e ((mono, before), h) =
    let closed : r.at < b.last_reset + d.window = omega arith in
    let window = window-allow_key d r.key r.at in
    elim (Bool-cases (r.key == key)) [
      | inl same ↦
          let at_key = (text_beq_iff r.key key).0 same in
          let (p', ok) = after_self d key b (length rs) r.at p closed (omega arith) in
          let (fewer, reset, passes) = use_closed d r.at b closed in
          let b' = (use_bucket d r.at b).0 in
          let window' = window-allow_key d key r.at in
          let rest =
            passed_until start close (allow_key d key r.at).0 key b' rs p' (omega arith)
              (omega arith) h in
          rw (at_key, beq_self key, ok, passes, rest, fewer) (ground arith)
      | inr other ↦
          let p' = after_other d key b (length rs) r.at p closed r.key other in
          let rest =
            passed_until start close (allow_key d r.key r.at).0 key b rs p' s (omega arith) h in
          rw (other, rest) (omega arith)
    ]

-- While the window of a bucket is open and the limiter has room, its key passes exactly as often as
-- it asks, up to the tokens and the burst left, whatever other keys ask between.
pub passed_key_in_window :
    (d : DomainLimiter) (key : Text) (b : RlBucket) (rs : List Request)
    → IsPresent d key b (length rs)
    → All (λ r. (b.last_reset ≤ r.at) × (r.at < b.last_reset + d.window)) rs
    → passed_key d key rs ≡ min (asked key rs) (b.tokens + b.spare)
passed_key_in_window d key b rs p h =
    passed_until b.last_reset (b.last_reset + d.window) d key b rs p refl refl h
