-- ===== src/LogBuf.antt =====
-- internal/logbuf/logbuf.go: the ring of recent log lines, with its subscribers. An index out of
-- range panics in Go; here it is `none`.
pub mod Sanitize
pub mod DockerStream
pub mod StreamTests
pub mod History
mod Tests
use simpledeploy.Prelude.{
  ℕ, zero, suc, ◌+◌, ◌-◌, Bool, true, false, Option, none, some, List, [], ◌∷◌, ◌++◌, map, ltb, leb,
  if◌then◌else◌, length, get_elem?, set, replicate, ◌>>=◌, nat_eq,
}
use simpledeploy.Prelude.Text.{Text}
use simpledeploy.Prelude.Dict.{Dict, insert, erase}

pub record Entry : Type 0 where
  pub timestamp : ℕ
  pub message : Text

-- `subs` holds what waits in the channel of each subscriber, by a number for the channel.
pub record Buffer : Type 0 where
  pub entries : List Entry
  pub max_size : ℕ
  pub pos : ℕ
  pub full : Bool
  pub subs : Dict ℕ (List Entry)

abbrev pub zero_entry : Entry
zero_entry = record { timestamp = 0; message = [] }

abbrev pub sub_capacity : ℕ
sub_capacity = 64

-- A size that is not positive is 0 here.
unfoldable pub new : ℕ → Buffer
new size =
    let size' = if leb size 0 then 1000 else size in
    record {
      entries = replicate size' zero_entry;
      max_size = size';
      pos = 0;
      full = false;
      subs = [];
    }

-- The send that never blocks: a full channel loses the line.
abbrev pub offer : Entry → List Entry → List Entry
offer e queue = if ltb (length queue) sub_capacity then queue ++ e ∷ [] else queue

unfoldable pub offer_all : Entry → Dict ℕ (List Entry) → Dict ℕ (List Entry)
offer_all e [] = []
offer_all e ((ch, queue) ∷ subs) = (ch, offer e queue) ∷ offer_all e subs

-- `Write` of an entry that has its time and its sanitized message.
unfoldable pub write : Buffer → Entry → Option Buffer
write b e =
    if ltb b.pos (length b.entries)
    then some (record b {
      entries = set b.entries b.pos e;
      pos = if leb b.max_size (b.pos + 1) then 0 else b.pos + 1;
      full = if leb b.max_size (b.pos + 1) then true else b.full;
      subs = offer_all e b.subs;
    })
    else none

-- `idx := b.pos - limit + i`, and the turn when it is negative.
abbrev pub index : Buffer → ℕ → ℕ → ℕ
index b limit i =
    if ltb (b.pos + i) limit then b.pos + i + b.max_size - limit else b.pos + i - limit

-- The loop from `i` on, with the rounds that are left.
unfoldable pub collect : Buffer → ℕ → ℕ → ℕ → Option (List Entry)
collect b limit i zero = some []
collect b limit i (suc n) = do
  e ← get_elem? b.entries (index b limit i)
  rest ← collect b limit (i + 1) n
  some (e ∷ rest)

abbrev pub stored : Buffer → ℕ
stored b = if b.full then b.max_size else b.pos

-- A limit that is not positive is 0 here.
unfoldable pub recent : Buffer → ℕ → Option (List Entry)
unfolding collect
recent b limit =
    let limit' = if ltb (stored b) limit then stored b else limit in
    if leb limit' 0 then some [] else collect b limit' 0 limit'

unfoldable pub clear : Buffer → Buffer
clear b = record b { entries = replicate b.max_size zero_entry; pos = 0; full = false }

unfoldable pub subscribe : ℕ → Buffer → Buffer
subscribe ch b = record b { subs = insert ch [] b.subs }

unfoldable pub unsubscribe : ℕ → Buffer → Buffer
unsubscribe ch b = record b { subs = erase ch b.subs }
