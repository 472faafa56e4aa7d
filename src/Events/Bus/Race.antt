-- ===== src/Events/Bus/Race.antt =====
-- Publishing while nothing interferes, and while a subscriber leaves.
use simpledeploy.Prelude.{
  ℕ, ◌≡◌, arith, Bool, true, false, ◌||◌, none, some, List, [], ◌∷◌, ◌==◌, nat_eq, Bool-cases, inl,
  inr, refl, All, eqb_iff, beq_self, Option-cases, ◌≢◌, ◌∙◌,
}
use simpledeploy.Prelude.Dict.{lookup, insert, lookup-insert}
use simpledeploy.Events.Bus.{
  Event, Subscriber, Bus, accepts, offer, deliver, stamped, publish, cancel,
}

-- The subscriber `id` is there, and its channel is open.
abbrev pub OpenAt : Bus → ℕ → Type 0
OpenAt b id = (s : Subscriber) × (lookup id b.store ≡ some s) × (s.closed ≡ false)

offer-none : (e : Event) (s : Subscriber) → s.closed ≡ false → offer e s ≢ none
unfolding offer
offer-none e s op = ground arith

offer-closed : (e : Event) (s s' : Subscriber) → offer e s ≡ some s' → s'.closed ≡ s.closed
unfolding offer
offer-closed e s s' h = ground arith

OpenAt-insert :
    (b : Bus) (x id : ℕ) (s : Subscriber)
    → s.closed ≡ false
    → OpenAt b id
    → OpenAt (record b { store = insert x s b.store }) id
OpenAt-insert b x id s op (t, found, ot) = elim (Bool-cases (x == id)) [
  | inl same ↦ (s, rw (lookup-insert, same), op)
  | inr other ↦ (t, rw (lookup-insert, other) found, ot)
]

All-OpenAt-insert :
    (b : Bus) (x : ℕ) (s : Subscriber) (ids : List ℕ)
    → s.closed ≡ false
    → All (OpenAt b) ids
    → All (OpenAt (record b { store = insert x s b.store })) ids
All-OpenAt-insert b x s [] op h = tt
All-OpenAt-insert b x s (id ∷ ids) op (hi, h) =
    (OpenAt-insert b x id s op hi, All-OpenAt-insert b x s ids op h)

-- A delivery to open channels never panics and never blocks.
pub deliver-open :
    (e : Event) (ids : List ℕ) (b : Bus)
    → All (OpenAt b) ids
    → (b' : Bus) × (deliver e ids b ≡ some b') × (b'.subs ≡ b.subs)
unfolding deliver
deliver-open e [] b h = (b, refl, refl)
deliver-open e (id ∷ ids) b ((s, found, op), h) = elim (Option-cases (offer e s)) [
  | inl panic ↦ absurd (offer-none e s op panic)
  | inr (s', sent) ↦
      let b₁ = record b { store = insert id s' b.store } in
      let still = All-OpenAt-insert b id s' ids (offer-closed e s s' sent ∙ op) h in
      let (b', rest, same) = deliver-open e ids b₁ still in (b', rw (found, sent) rest, same)
]

-- A publish that nothing interrupts never panics, when every subscriber of the bus is open.
pub publish-open :
    (now : ℕ) (e : Event) (b : Bus)
    → All (OpenAt b) b.subs
    → (b' : Bus) × (publish now e b ≡ some b') × (b'.subs ≡ b.subs)
unfolding publish stamped
publish-open now e b h = deliver-open (stamped now e) b.subs b h

unfoldable pub listed : ℕ → List ℕ → Bool
listed id [] = false
listed id (x ∷ xs) = x == id || listed id xs

offer-panic :
    (e : Event) (s : Subscriber) → s.closed ≡ true → accepts s.filter e ≡ true → offer e s ≡ none
unfolding offer
offer-panic e s gone ok = rw (ok, gone)

deliver-panic :
    (e : Event) (ids : List ℕ) (b : Bus) (id : ℕ) (s : Subscriber)
    → lookup id b.store ≡ some s
    → s.closed ≡ true
    → accepts s.filter e ≡ true
    → listed id ids ≡ true
    → deliver e ids b ≡ none
unfolding deliver listed
deliver-panic e [] b id s found gone ok l = cc
deliver-panic e (x ∷ ids) b id s found gone ok l = elim (Bool-cases (x == id)) [
  | inl same ↦ rw ((eqb_iff x id).0 same, found, offer-panic e s gone ok)
  | inr other ↦ elim (Option-cases (lookup x b.store)) [
    | inl missing ↦ rw missing
    | inr (t, there) ↦ elim (Option-cases (offer e t)) [
      | inl panic ↦ rw (there, panic)
      | inr (t', sent) ↦
          rw (there, sent)
            (deliver-panic e ids (record b { store = insert x t' b.store }) id s
              (rw (lookup-insert, other) found) gone ok (rw other at l))
    ]
  ]
]

-- A subscriber that leaves after `Publish` has copied the list, and before it is served, makes the
-- publish panic: its channel is closed, and the copy still names it.
pub publish_race :
    (e : Event) (b : Bus) (id : ℕ) (s : Subscriber)
    → listed id b.subs ≡ true
    → lookup id b.store ≡ some s
    → s.closed ≡ false
    → accepts s.filter e ≡ true
    → deliver e b.subs (cancel id b) ≡ none
unfolding cancel
publish_race e b id s l found op ok =
    rw (found, op)
      (deliver-panic e b.subs _ id (record s { closed = true }) (rw (lookup-insert, beq_self id))
        refl ok l)
