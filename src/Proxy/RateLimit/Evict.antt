-- ===== src/Proxy/RateLimit/Evict.antt =====
-- Eviction from the back of the list drops exactly the idle buckets.
use simpledeploy.Prelude.{
  ℕ, ◌≤◌, ◌≡◌, arith, true, false, List, [], ◌∷◌, if◌then◌else◌, All, Bool-cases, inl, inr, refl,
}
use simpledeploy.Proxy.RateLimit.{RlBucket, is_idle, evict_last, evict_idle}

-- The list is in the order of use, the latest in front.
abbrev pub InOrder : List RlBucket → Type 0
InOrder [] = Unit
InOrder (b ∷ bs) = All (λ c. c.last_access ≤ b.last_access) bs × InOrder bs

-- The buckets that are not idle.
unfoldable pub busy : ℕ → ℕ → List RlBucket → List RlBucket
busy age now [] = []
busy age now (b ∷ bs) = let rest = busy age now bs in if is_idle age now b then rest else b ∷ rest

busy_none :
    (age now : ℕ) (b : RlBucket) (bs : List RlBucket)
    → is_idle age now b ≡ true
    → All (λ c. c.last_access ≤ b.last_access) bs
    → busy age now bs ≡ []
unfolding busy
busy_none age now b [] h hs = refl
busy_none age now b (c ∷ cs) h (hc, hs) = ground (arith, busy_none age now b cs h hs)

keep_front :
    (age now : ℕ) (b : RlBucket) (bs : List RlBucket)
    → is_idle age now b ≡ false
    → evict_last age now b bs ≡ b ∷ bs
keep_front age now b [] h = rw h
keep_front age now b (c ∷ cs) h = refl

-- On a list in the order of use, the loop from the back drops every idle bucket and no other.
pub evict_idle-busy :
    (age now : ℕ) (bs : List RlBucket) → InOrder bs → evict_idle age now bs ≡ busy age now bs
unfolding evict_idle busy
evict_idle-busy age now [] h = refl
evict_idle-busy age now (b ∷ bs) (hb, h) = elim (Bool-cases (is_idle age now b)) [
  | inl e ↦ rw (e, evict_idle-busy age now bs h, busy_none age now b bs e hb, e)
  | inr e ↦ rw (e, evict_idle-busy age now bs h, keep_front age now b (busy age now bs) e)
]
