-- ===== src/Events/Bus/Queue.antt =====
-- What a subscriber that does not read finds in its channel.
use simpledeploy.Prelude.{
  ℕ, zero, suc, ◌+◌, ◌-◌, ◌≤◌, ◌<◌, ◌≡◌, arith, Bool, true, false, ◌||◌, Option, some, List, [],
  ◌∷◌, ◌++◌, ltb, if◌then◌else◌, length, drop, length-append, length-drop, ◌>>=◌, Bool-cases, inl,
  inr, refl, append_assoc, append-nil,
}
use simpledeploy.Events.Bus.{Event, Subscriber, sub_buffer, accepts, drop_oldest, offer}

unfoldable pub offer_all : List Event → Subscriber → Option Subscriber
offer_all [] s = some s
offer_all (e ∷ es) s = do s' ← offer e s; offer_all es s'

-- The events that the filter of a subscriber accepts.
unfoldable pub accepted : Option (Event → Bool) → List Event → List Event
accepted f [] = []
accepted f (e ∷ es) = let rest = accepted f es in if accepts f e then e ∷ rest else rest

-- The last `n` of a list.
abbrev pub lasts {ℓ} : {A : Type ℓ} → ℕ → List A → List A
lasts n xs = drop (length xs - n) xs

drop-append : (n : ℕ) (xs ys : List Event) → n ≤ length xs → drop n (xs ++ ys) ≡ drop n xs ++ ys
drop-append zero xs ys h = refl
drop-append (suc n) [] ys h = elim h [ ]
drop-append (suc n) (x ∷ xs) ys h = drop-append n xs ys (omega arith)

drop-nil : (n : ℕ) → drop {A = Event} n [] ≡ []
drop-nil zero = refl
drop-nil (suc n) = refl

drop-drop : (m n k : ℕ) (xs : List Event) → k ≡ n + m → drop m (drop n xs) ≡ drop k xs
drop-drop m zero k xs h = let e : k ≡ m = omega arith in rw e
drop-drop m (suc n) k [] h = rw (drop-nil m, drop-nil k)
drop-drop m (suc n) zero (x ∷ xs) h = absurd (omega arith)
drop-drop m (suc n) (suc k) (x ∷ xs) h = drop-drop m n k xs (omega arith)

-- Taking the last `n` at each step is taking them at the end.
lasts-append : (n : ℕ) (xs ys : List Event) → lasts n (lasts n xs ++ ys) ≡ lasts n (xs ++ ys)
lasts-append n xs ys =
    let d = length xs - n in
    rw (← drop-append d xs ys (omega arith)) (
      drop-drop _ d (length (xs ++ ys) - n) (xs ++ ys)
        (omega (arith, length-drop d (xs ++ ys), length-append xs ys)))

drop_oldest-append :
    (xs : List Event) (e : Event) → 0 < length xs → drop_oldest xs ++ e ∷ [] ≡ drop 1 (xs ++ e ∷ [])
drop_oldest-append [] e h = elim h [ ]
drop_oldest-append (x ∷ xs) e h = refl

-- The subscriber after one more accepted event.
abbrev sent : Event → Subscriber → Subscriber
sent e s = record s {
  ch = lasts sub_buffer (s.ch ++ e ∷ []);
  stale = s.stale || ltb sub_buffer (length (s.ch ++ e ∷ []));
}

offer-sent :
    (e : Event) (s : Subscriber)
    → s.closed ≡ false
    → accepts s.filter e ≡ true
    → length s.ch ≤ sub_buffer
    → offer e s ≡ some (sent e s)
unfolding offer
offer-sent e s op ok h =
    let all = s.ch ++ e ∷ [] in
    let more = length-append s.ch (e ∷ []) in
    elim (Bool-cases (ltb (length s.ch) sub_buffer)) [
      | inl short ↦
          let none_lost : length all - sub_buffer ≡ 0 = ground arith in
          let fits : ltb sub_buffer (length all) ≡ false = ground arith in
          rw (ok, op, short, none_lost, fits) (ground arith)
      | inr full ↦
          let one_lost : length all - sub_buffer ≡ 1 = ground arith in
          let over : ltb sub_buffer (length all) ≡ true = ground arith in
          rw (ok, op, full, one_lost, over, drop_oldest-append s.ch e (ground arith)) (ground arith)
    ]

offer-skipped : (e : Event) (s : Subscriber) → accepts s.filter e ≡ false → offer e s ≡ some s
unfolding offer
offer-skipped e s h = rw h

-- A subscriber to which `all` has been sent since its channel was empty.
abbrev pub having : Subscriber → List Event → Subscriber
having s all = record s {
  ch = lasts sub_buffer all;
  stale = s.stale || ltb sub_buffer (length all);
}

or_over :
    (b : Bool) (all more : List Event)
    → (b || ltb sub_buffer (length all) || ltb sub_buffer (length (lasts sub_buffer all ++ more)))
      ≡ (b || ltb sub_buffer (length (all ++ more)))
or_over b all more = ground (
  arith,
  length-append all more,
  length-append (lasts sub_buffer all) more,
  length-drop (length all - sub_buffer) all,
)

length-lasts : (all : List Event) → length (lasts sub_buffer all) ≤ sub_buffer
length-lasts all = omega (arith, length-drop (length all - sub_buffer) all)

-- A subscriber that does not read has the last 64 of what waited and was accepted since, in order,
-- and is stale exactly when it was before or an event was lost.
pub offer_all-lasts :
    (es : List Event) (s : Subscriber)
    → s.closed ≡ false
    → length s.ch ≤ sub_buffer
    → offer_all es s ≡ some (having s (s.ch ++ accepted s.filter es))
unfolding offer_all accepted
offer_all-lasts [] s op h =
    let none_lost : length s.ch - sub_buffer ≡ 0 = omega arith in
    let fits : ltb sub_buffer (length s.ch) ≡ false = ground arith in
    rw (append-nil, none_lost, fits) (ground arith)
offer_all-lasts (e ∷ es) s op h = elim (Bool-cases (accepts s.filter e)) [
  | inl ok ↦
      let all = s.ch ++ e ∷ [] in
      let rest = accepted s.filter es in
      let ih = offer_all-lasts es (sent e s) op (length-lasts all) in
      rw (
        offer-sent e s op ok h,
        ih,
        ok,
        lasts-append sub_buffer all rest,
        or_over s.stale all rest,
        append_assoc,
      )
  | inr skipped ↦ rw (offer-skipped e s skipped, skipped) (offer_all-lasts es s op h)
]
