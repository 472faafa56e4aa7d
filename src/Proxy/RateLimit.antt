-- ===== src/Proxy/RateLimit.antt =====
-- internal/proxy/ratelimit.go: the limiter of one domain. Times are nanoseconds; a test on a
-- difference of times is written with the sum on the other side. Every write of the Go map
-- `buckets` is paired with one of the list `lru`, so the map is the look-up by key in the list.
pub mod Evict
pub mod Rate
pub mod Present
pub mod Invariant
pub mod Sub
use simpledeploy.Prelude.{
  ℕ, zero, suc, ◌+◌, ◌-◌, ◌*◌, Bool, true, false, not, ◌&&◌, ◌||◌, Option, none, some, List, [],
  ◌∷◌, ◌++◌, ltb, leb, if◌then◌else◌, ◌==◌, length,
}
use simpledeploy.Prelude.Text.{Text, text_eq, codes}

abbrev pub max_rate_limit_buckets : ℕ
max_rate_limit_buckets = 10000

abbrev pub max_rate_limit_key_len : ℕ
max_rate_limit_key_len = 128

pub record RateLimitConfig : Type 0 where
  pub requests : ℕ
  pub window : ℕ
  pub burst : ℕ
  pub by : Text

pub record RlBucket : Type 0 where
  pub key : Text
  pub tokens : ℕ
  pub spare : ℕ
  pub over : Bool
  pub last_reset : ℕ
  pub last_access : ℕ

-- `lru` has the most recently used bucket in front.
pub record DomainLimiter : Type 0 where
  pub requests : ℕ
  pub window : ℕ
  pub burst : ℕ
  pub by : Text
  pub max_buckets : ℕ
  pub lru : List RlBucket

unfoldable pub new_domain_limiter : RateLimitConfig → DomainLimiter
new_domain_limiter cfg = record {
  requests = cfg.requests;
  window = cfg.window;
  burst = cfg.burst;
  by = cfg.by;
  max_buckets = max_rate_limit_buckets;
  lru = [];
}

-- `lastAccess.Before(now - age)`.
abbrev pub is_idle : ℕ → ℕ → RlBucket → Bool
is_idle age now b = ltb (b.last_access + age) now

-- `evictIdle(now - age)`: buckets leave from the back, up to the first that is not idle.
abbrev pub evict_last : ℕ → ℕ → RlBucket → List RlBucket → List RlBucket
evict_last age now b [] = if is_idle age now b then [] else b ∷ []
evict_last age now b (c ∷ cs) = b ∷ c ∷ cs

unfoldable pub evict_idle : ℕ → ℕ → List RlBucket → List RlBucket
evict_idle age now [] = []
evict_idle age now (b ∷ bs) = evict_last age now b (evict_idle age now bs)

-- `removeElement(lru.Back())`.
unfoldable pub drop_last : List RlBucket → List RlBucket
drop_last [] = []
drop_last (b ∷ []) = []
drop_last (b ∷ c ∷ cs) = b ∷ drop_last (c ∷ cs)

-- The loop that drops the least recently used; the fuel is the length of the list.
unfoldable pub shrink : ℕ → ℕ → List RlBucket → List RlBucket
shrink zero max bs = bs
shrink (suc fuel) max bs =
    let rest = shrink fuel max (drop_last bs) in
    if leb max (length bs) && ltb 0 (length bs) then rest else bs

unfoldable pub make_room : DomainLimiter → ℕ → List RlBucket → List RlBucket
unfolding evict_idle drop_last shrink
make_room d now bs =
    if leb d.max_buckets (length bs)
    then (let kept = evict_idle d.window now bs in shrink (length kept) d.max_buckets kept)
    else bs

unfoldable pub find_bucket : Text → List RlBucket → Option RlBucket
find_bucket key [] = none
find_bucket key (b ∷ bs) = if b.key == key then some b else find_bucket key bs

unfoldable pub remove_bucket : Text → List RlBucket → List RlBucket
remove_bucket key [] = []
remove_bucket key (b ∷ bs) = if b.key == key then bs else b ∷ remove_bucket key bs

-- The bucket of the key at the front, before it is used: moved there, or new.
abbrev pub front_bucket :
    DomainLimiter → Text → ℕ → List RlBucket → Option RlBucket → RlBucket × List RlBucket
front_bucket d key now bs (some b) = (b, remove_bucket key bs)
front_bucket d key now bs none = (
  record {
    key = key;
    tokens = d.requests;
    spare = d.burst;
    over = false;
    last_reset = now;
    last_access = now;
  },
  make_room d now bs,
)

-- The refill of a bucket whose window is over.
unfoldable pub refill : DomainLimiter → ℕ → RlBucket → RlBucket
refill d now b =
    if leb (b.last_reset + d.window) now
    then record b {
      spare = if not b.over || leb (b.last_reset + 2 * d.window) now then d.burst else b.spare;
      over = false;
      tokens = d.requests;
      last_reset = now;
      last_access = now;
    }
    else record b { last_access = now }

unfoldable pub spend : RlBucket → RlBucket × Bool
spend b =
    if ltb 0 b.tokens
    then (record b { tokens = b.tokens - 1 }, true)
    else if ltb 0 b.spare
    then (record b { over = true; spare = b.spare - 1 }, true)
    else (record b { over = true }, false)

unfoldable pub use_bucket : DomainLimiter → ℕ → RlBucket → RlBucket × Bool
unfolding refill spend
use_bucket d now b = spend (refill d now b)

-- A long key is stored as its SHA-256 in hexadecimal, which `sha256_hex` stands for.
unfoldable pub stored_key : (Text → Text) → Text → Text
stored_key sha256_hex key =
    if ltb max_rate_limit_key_len (length key) then codes "sha256:" ++ sha256_hex key else key

-- `allow` behind the shortening of the key.
unfoldable pub allow_key : DomainLimiter → Text → ℕ → DomainLimiter × Bool
unfolding evict_idle find_bucket
allow_key d key now =
    let bs = evict_idle (2 * d.window) now d.lru in
    let (b, rest) = front_bucket d key now bs (find_bucket key bs) in
    let (b', ok) = use_bucket d now b in (record d { lru = b' ∷ rest }, ok)

unfoldable pub allow : (Text → Text) → DomainLimiter → Text → ℕ → DomainLimiter × Bool
unfolding stored_key allow_key
allow sha256_hex d key now = allow_key d (stored_key sha256_hex key) now
