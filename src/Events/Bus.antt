-- ===== src/Events/Bus.antt =====
-- internal/events/bus.go. A subscriber is an object of a store, named by a number; the bus holds
-- the numbers. `Publish` is two steps, the copy of the list under the lock and the delivery without
-- it, between which other calls may run. A send on a closed channel panics in Go; here it is `none`.
pub mod Queue
pub mod Race
use simpledeploy.Prelude.{
  ℕ, ◌+◌, ◌-◌, Bool, true, false, not, Option, none, some, List, [], ◌∷◌, ◌++◌, ltb, if◌then◌else◌,
  ◌==◌, length, ◌>>=◌, nat_eq, String,
}
use simpledeploy.Prelude.Dict.{Dict, lookup, insert}

pub record Event : Type 0 where
  pub kind : String
  pub topic : String
  pub actor_id : Option ℕ
  pub app : String
  pub ts : ℕ

-- `ch` is what waits in the channel, the oldest first.
pub record Subscriber : Type 0 where
  pub ch : List Event
  pub filter : Option (Event → Bool)
  pub stale : Bool
  pub closed : Bool

pub record Bus : Type 0 where
  pub subs : List ℕ
  pub store : Dict ℕ Subscriber

abbrev pub sub_buffer : ℕ
sub_buffer = 64

unfoldable pub new : Bus
new = record { subs = []; store = [] }

-- `id` is the number of the new object.
unfoldable pub subscribe : ℕ → Option (Event → Bool) → Bus → Bus
subscribe id filter b = record {
  subs = b.subs ++ id ∷ [];
  store = insert id (record { ch = []; filter = filter; stale = false; closed = false }) b.store;
}

unfoldable pub remove_first : ℕ → List ℕ → List ℕ
remove_first id [] = []
remove_first id (x ∷ xs) = if x == id then xs else x ∷ remove_first id xs

abbrev pub close_channel : ℕ → Bus → Option Subscriber → Bus
close_channel id b none = b
close_channel id b (some s) = if s.closed then b else record {
  subs = remove_first id b.subs;
  store = insert id (record s { closed = true }) b.store;
}

-- The function that `Subscribe` returns; `sync.Once` makes a second call do nothing.
unfoldable pub cancel : ℕ → Bus → Bus
unfolding remove_first
cancel id b = close_channel id b (lookup id b.store)

abbrev pub accepts : Option (Event → Bool) → Event → Bool
accepts none e = true
accepts (some f) e = f e

abbrev pub drop_oldest : List Event → List Event
drop_oldest [] = []
drop_oldest (x ∷ xs) = xs

-- One round of the loop of `Publish`.
unfoldable pub offer : Event → Subscriber → Option Subscriber
offer e s =
    if not (accepts s.filter e)
    then some s
    else if s.closed
    then none
    else if ltb (length s.ch) sub_buffer
    then some (record s { ch = s.ch ++ e ∷ [] })
    else some (record s { ch = drop_oldest s.ch ++ e ∷ []; stale = true })

unfoldable pub deliver : Event → List ℕ → Bus → Option Bus
unfolding offer
deliver e [] b = some b
deliver e (id ∷ ids) b = do
  s ← lookup id b.store
  s' ← offer e s
  deliver e ids (record b { store = insert id s' b.store })

-- An event without a time is given the time of the call; 0 is the zero `time.Time`.
unfoldable pub stamped : ℕ → Event → Event
stamped now e = if e.ts == 0 then record e { ts = now } else e

-- `Publish` when nothing runs between its two steps.
unfoldable pub publish : ℕ → Event → Bus → Option Bus
unfolding deliver stamped
publish now e b = deliver (stamped now e) b.subs b

unfoldable pub reset : Subscriber → Subscriber
reset s = record s { stale = false }
