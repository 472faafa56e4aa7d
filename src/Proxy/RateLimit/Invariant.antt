-- ===== src/Proxy/RateLimit/Invariant.antt =====
-- What holds of the list of buckets after any requests.
use simpledeploy.Prelude.{
  ℕ, ◌*◌, ◌≤◌, ◌<◌, ◌≡◌, arith, none, List, [], ◌∷◌, All, inl, inr, refl, length, Option-cases,
}
use simpledeploy.Prelude.Text.{Text}
use simpledeploy.Proxy.RateLimit.{
  RlBucket, DomainLimiter, evict_idle, find_bucket, front_bucket, refill, spend, use_bucket,
  allow_key,
}
use simpledeploy.Proxy.RateLimit.Evict.{InOrder}
use simpledeploy.Proxy.RateLimit.Sub.{
  Sub, DistinctKeys, Sub-All, Sub-InOrder, Sub-length, Sub-find, Sub-DistinctKeys, Sub-trans,
  evict_idle-Sub, make_room-Sub, make_room-lt, remove_bucket-Sub, length-remove_bucket, find-key,
  find-remove_bucket,
}

-- The list is within the cap, in the order of use, with one bucket for a key, none used after `now`.
pub record IsValid (now : ℕ) (d : DomainLimiter) : Type 0 where
  pub capped : length d.lru ≤ d.max_buckets
  pub ordered : InOrder d.lru
  pub past : All (λ b. b.last_access ≤ now) d.lru
  pub distinct : DistinctKeys d.lru

use_access : (d : DomainLimiter) (now : ℕ) (b : RlBucket) → (use_bucket d now b).0.last_access ≡ now
unfolding use_bucket refill spend
use_access d now b = ground arith

use_key : (d : DomainLimiter) (now : ℕ) (b : RlBucket) → (use_bucket d now b).0.key ≡ b.key
unfolding use_bucket refill spend
use_key d now b = ground arith

-- What stands behind the front bucket.
abbrev RestOk : DomainLimiter → Text → List RlBucket → RlBucket × List RlBucket → Type 0
RestOk d key bs (b, rest) =
    (b.key ≡ key) × Sub rest bs × (length rest < d.max_buckets) × (find_bucket key rest ≡ none)

front-RestOk :
    (d : DomainLimiter) (key : Text) (now : ℕ) (bs : List RlBucket)
    → 0 < d.max_buckets
    → length bs ≤ d.max_buckets
    → DistinctKeys bs
    → RestOk d key bs (front_bucket d key now bs (find_bucket key bs))
front-RestOk d key now bs pos cap h = elim (Option-cases (find_bucket key bs)) [
  | inl e ↦ rw e (
    refl,
    make_room-Sub d now bs,
    make_room-lt d now bs pos,
    Sub-find key (make_room-Sub d now bs) e,
  )
  | inr (b, e) ↦ rw e (
    find-key key bs b e,
    remove_bucket-Sub key bs,
    omega (arith, length-remove_bucket key bs b e),
    find-remove_bucket key bs h,
  )
]

past_le :
    (now later : ℕ) (bs : List RlBucket)
    → now ≤ later
    → All (λ b. b.last_access ≤ now) bs
    → All (λ b. b.last_access ≤ later) bs
past_le now later [] le h = tt
past_le now later (b ∷ bs) le (hb, h) = (omega arith, past_le now later bs le h)

-- Whatever key asks, at whatever later time, the list stays within the cap, in the order of use and
-- with one bucket for a key.
pub allow_key-IsValid :
    (d : DomainLimiter) (key : Text) (before now : ℕ)
    → 0 < d.max_buckets
    → before ≤ now
    → IsValid before d
    → IsValid now (allow_key d key now).0
unfolding allow_key
allow_key-IsValid d key before now pos le v =
    let bs = evict_idle (2 * d.window) now d.lru in
    let sub = evict_idle-Sub (2 * d.window) now d.lru in
    let front = front_bucket d key now bs (find_bucket key bs) in
    let (same, rest, room, fresh) =
      front-RestOk d key now bs pos (omega (arith, Sub-length sub, v.capped))
        (Sub-DistinctKeys sub v.distinct) in
    let within = Sub-trans rest sub in
    let old = past_le before now front.1 le (Sub-All _ within v.past) in
    record {
      capped = omega arith;
      ordered = (rw (use_access d now front.0) old, Sub-InOrder within v.ordered);
      past = (omega (arith, use_access d now front.0), old);
      distinct = (rw (use_key d now front.0, same) fresh, Sub-DistinctKeys within v.distinct);
    }
