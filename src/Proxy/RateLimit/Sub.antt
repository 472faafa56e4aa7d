-- ===== src/Proxy/RateLimit/Sub.antt =====
-- Every step on the list of buckets but the push leaves a sublist.
use simpledeploy.Prelude.{
  ℕ, zero, suc, ◌+◌, ◌≤◌, ◌<◌, ◌≡◌, arith, ◌&&◌, none, some, List, [], ◌∷◌, All, Bool-cases, inl,
  inr, refl, length, ltb, leb, ◌==◌,
}
use simpledeploy.Prelude.Text.{Text, text_eq, text_beq_iff}
use simpledeploy.Proxy.RateLimit.{
  RlBucket, DomainLimiter, is_idle, evict_last, evict_idle, drop_last, shrink, make_room,
  find_bucket, remove_bucket,
}
use simpledeploy.Proxy.RateLimit.Evict.{InOrder}

pub data Sub : List RlBucket → List RlBucket → Type 0 where
  done : Sub [] []
  keep : (b : RlBucket) {bs cs : List RlBucket} → Sub bs cs → Sub (b ∷ bs) (b ∷ cs)
  skip : (b : RlBucket) {bs cs : List RlBucket} → Sub bs cs → Sub bs (b ∷ cs)

pub Sub-refl : (bs : List RlBucket) → Sub bs bs
Sub-refl [] = done
Sub-refl (b ∷ bs) = keep b (Sub-refl bs)

pub Sub-trans : {bs cs ds : List RlBucket} → Sub bs cs → Sub cs ds → Sub bs ds
Sub-trans s done = s
Sub-trans s (skip d t) = skip d (Sub-trans s t)
Sub-trans (keep b s) (keep d t) = keep d (Sub-trans s t)
Sub-trans (skip b s) (keep d t) = skip d (Sub-trans s t)

pub Sub-All : (P : RlBucket → Type 0) {bs cs : List RlBucket} → Sub bs cs → All P cs → All P bs
Sub-All P done h = h
Sub-All P (keep b s) (p, h) = (p, Sub-All P s h)
Sub-All P (skip b s) (p, h) = Sub-All P s h

pub Sub-InOrder : {bs cs : List RlBucket} → Sub bs cs → InOrder cs → InOrder bs
Sub-InOrder done h = h
Sub-InOrder (keep b s) (p, h) = (Sub-All _ s p, Sub-InOrder s h)
Sub-InOrder (skip b s) (p, h) = Sub-InOrder s h

pub Sub-length : {bs cs : List RlBucket} → Sub bs cs → length bs ≤ length cs
Sub-length done = omega arith
Sub-length (keep b s) = omega (arith, Sub-length s)
Sub-length (skip b s) = omega (arith, Sub-length s)

pub Sub-find :
    (key : Text) {bs cs : List RlBucket}
    → Sub bs cs
    → find_bucket key cs ≡ none
    → find_bucket key bs ≡ none
unfolding find_bucket
Sub-find key done h = h
Sub-find key (keep b s) h = ground (arith, Sub-find key s)
Sub-find key (skip b s) h = Sub-find key s (ground arith)

-- No key stands twice.
abbrev pub DistinctKeys : List RlBucket → Type 0
DistinctKeys [] = Unit
DistinctKeys (b ∷ bs) = (find_bucket b.key bs ≡ none) × DistinctKeys bs

pub Sub-DistinctKeys : {bs cs : List RlBucket} → Sub bs cs → DistinctKeys cs → DistinctKeys bs
Sub-DistinctKeys done h = h
Sub-DistinctKeys (keep b s) (p, h) = (Sub-find b.key s p, Sub-DistinctKeys s h)
Sub-DistinctKeys (skip b s) (p, h) = Sub-DistinctKeys s h

evict_last-Sub :
    (age now : ℕ) (b : RlBucket) (bs : List RlBucket) → Sub (evict_last age now b bs) (b ∷ bs)
evict_last-Sub age now b [] = elim (Bool-cases (is_idle age now b)) [
  | inl e ↦ rw e (skip b done)
  | inr e ↦ rw e (keep b done)
]
evict_last-Sub age now b (c ∷ cs) = Sub-refl (b ∷ c ∷ cs)

pub evict_idle-Sub : (age now : ℕ) (bs : List RlBucket) → Sub (evict_idle age now bs) bs
unfolding evict_idle
evict_idle-Sub age now [] = done
evict_idle-Sub age now (b ∷ bs) =
    Sub-trans (evict_last-Sub age now b (evict_idle age now bs))
      (keep b (evict_idle-Sub age now bs))

drop_last-Sub : (bs : List RlBucket) → Sub (drop_last bs) bs
unfolding drop_last
drop_last-Sub [] = done
drop_last-Sub (b ∷ []) = skip b done
drop_last-Sub (b ∷ c ∷ cs) = keep b (drop_last-Sub (c ∷ cs))

length-drop_last : (b : RlBucket) (bs : List RlBucket) → length (drop_last (b ∷ bs)) ≡ length bs
unfolding drop_last
length-drop_last b [] = refl
length-drop_last b (c ∷ cs) = omega (arith, length-drop_last c cs)

shrink-Sub : (fuel max : ℕ) (bs : List RlBucket) → Sub (shrink fuel max bs) bs
unfolding shrink
shrink-Sub zero max bs = Sub-refl bs
shrink-Sub (suc fuel) max bs = elim (Bool-cases (leb max (length bs) && ltb 0 (length bs))) [
  | inl e ↦ rw e (Sub-trans (shrink-Sub fuel max (drop_last bs)) (drop_last-Sub bs))
  | inr e ↦ rw e (Sub-refl bs)
]

-- The length of the list is fuel enough: the loop stops below the cap.
shrink-lt :
    (fuel max : ℕ) (bs : List RlBucket)
    → 0 < max
    → length bs ≤ fuel
    → length (shrink fuel max bs) < max
unfolding shrink
shrink-lt zero max [] pos h = pos
shrink-lt zero max (b ∷ bs) pos h = absurd (omega arith)
shrink-lt (suc fuel) max [] pos h = ground arith
shrink-lt (suc fuel) max (b ∷ bs) pos h = ground (
  arith,
  length-drop_last b bs,
  shrink-lt fuel max (drop_last (b ∷ bs)) pos (omega (arith, length-drop_last b bs)),
)

pub make_room-Sub : (d : DomainLimiter) (now : ℕ) (bs : List RlBucket) → Sub (make_room d now bs) bs
unfolding make_room
make_room-Sub d now bs = elim (Bool-cases (leb d.max_buckets (length bs))) [
  | inl e ↦
      let kept = evict_idle d.window now bs in
      rw e
        (Sub-trans (shrink-Sub (length kept) d.max_buckets kept) (evict_idle-Sub d.window now bs))
  | inr e ↦ rw e (Sub-refl bs)
]

-- After it there is room for one more.
pub make_room-lt :
    (d : DomainLimiter) (now : ℕ) (bs : List RlBucket)
    → 0 < d.max_buckets
    → length (make_room d now bs) < d.max_buckets
unfolding make_room
make_room-lt d now bs pos =
    let kept = evict_idle d.window now bs in
    ground (arith, shrink-lt (length kept) d.max_buckets kept pos (omega arith))

pub remove_bucket-Sub : (key : Text) (bs : List RlBucket) → Sub (remove_bucket key bs) bs
unfolding remove_bucket
remove_bucket-Sub key [] = done
remove_bucket-Sub key (b ∷ bs) = elim (Bool-cases (b.key == key)) [
  | inl e ↦ rw e (skip b (Sub-refl bs))
  | inr e ↦ rw e (keep b (remove_bucket-Sub key bs))
]

pub length-remove_bucket :
    (key : Text) (bs : List RlBucket) (b : RlBucket)
    → find_bucket key bs ≡ some b
    → length (remove_bucket key bs) + 1 ≡ length bs
unfolding find_bucket remove_bucket
length-remove_bucket key [] b h = cc
length-remove_bucket key (c ∷ bs) b h = ground (arith, length-remove_bucket key bs b)

pub find-key :
    (key : Text) (bs : List RlBucket) (b : RlBucket) → find_bucket key bs ≡ some b → b.key ≡ key
unfolding find_bucket
find-key key [] b h = cc
find-key key (c ∷ bs) b h = ground (arith, find-key key bs b, text_beq_iff c.key key)

pub find-remove_bucket :
    (key : Text) (bs : List RlBucket)
    → DistinctKeys bs
    → find_bucket key (remove_bucket key bs) ≡ none
unfolding find_bucket remove_bucket
find-remove_bucket key [] h = refl
find-remove_bucket key (c ∷ bs) (hc, h) = elim (Bool-cases (c.key == key)) [
  | inl e ↦ rw e (rw ((text_beq_iff c.key key).0 e) at hc)
  | inr e ↦ rw e (rw e (find-remove_bucket key bs h))
]
