-- ===== src/Events/Tests.antt =====
-- internal/events at concrete inputs.
use simpledeploy.Prelude.{ℕ, ◌≡◌, refl, false, none, some, [], ◌∷◌, ltb, nat_eq}
use simpledeploy.Prelude.Dict.{lookup, insert}
use simpledeploy.Events.Bus.{Event, Subscriber, Bus, new, subscribe, cancel, deliver}
use simpledeploy.Events.Bus.Race.{listed, publish_race}

abbrev tick : ℕ → Event
tick n = record { kind = "app.changed"; topic = "app:a"; actor_id = none; app = "a"; ts = n }

abbrev reader : Subscriber
reader = record { ch = tick 1 ∷ []; filter = some (λ e. ltb e.ts 9); stale = false; closed = false }

abbrev two_readers : Bus
two_readers = record { subs = 1 ∷ 2 ∷ []; store = (1, reader) ∷ (2, reader) ∷ [] }

subscribed : subscribe 2 reader.filter (subscribe 1 reader.filter new) ≡ record {
  subs = 1 ∷ 2 ∷ [];
  store = (1, record reader { ch = [] }) ∷ (2, record reader { ch = [] }) ∷ [];
}
unfolding subscribe new insert
subscribed = refl

publish_race_example : deliver (tick 4) two_readers.subs (cancel 2 two_readers) ≡ none
unfolding lookup listed
publish_race_example = publish_race (tick 4) two_readers 2 reader refl refl refl refl
