-- ===== src/Backup/Cap.antt =====
-- capReader and restoreCap of internal/backup/tarsafe.go and strategy.go: the limit on the bytes of a
-- restore.
pub mod Limit
use simpledeploy.Prelude.{
  ℕ, ◌-◌, ◌*◌, Bool, true, false, Option, none, some, List, [], ◌∷◌, ltb, if◌then◌else◌, length,
}

-- `other` is an error of the reader below.
pub data ReadError : Type 0 where
  eof archive_too_large other : ReadError

-- What a read into a buffer leaves there, with its error, and the reader after it.
pub record ReadResult (S : Type 0) : Type 0 where
  pub bytes : List ℕ
  pub error : Option ReadError
  pub next : S

pub record CapReader (S : Type 0) : Type 0 where
  pub r : S
  pub max : ℕ
  pub remaining : ℕ

abbrev pub new_cap_reader : {S : Type 0} → S → ℕ → CapReader S
new_cap_reader r max = record { r = r; max = max; remaining = max }

abbrev pub fit : ℕ → ℕ → ℕ
fit remaining len = if ltb remaining len then remaining else len

-- `read` is the reader below: what a buffer of a length gets.
module _ {S : Type 0} (read : ℕ → S → ReadResult S) where
  -- The read of one byte at the cap.
  abbrev pub probe : CapReader S → ReadResult S → ReadResult (CapReader S)
  probe c got = record {
    bytes = [];
    error = if ltb 0 (length got.bytes) then some archive_too_large else got.error;
    next = record c { r = got.next };
  }

  abbrev pub pass_on : CapReader S → ReadResult S → ReadResult (CapReader S)
  pass_on c got = record {
    bytes = got.bytes;
    error = got.error;
    next = record c { r = got.next; remaining = c.remaining - length got.bytes };
  }

  unfoldable pub cap_read : ℕ → CapReader S → ReadResult (CapReader S)
  cap_read len c =
      if ltb 0 c.remaining then pass_on c (read (fit c.remaining len) c.r) else probe c (read 1 c.r)

-- A limit of 0 is the default of 8 GiB; `none` is a negative one, which is no limit.
abbrev pub default_max_decompressed : ℕ
default_max_decompressed = 8 * 1073741824

unfoldable pub restore_cap : Option ℕ → Option ℕ
restore_cap none = none
restore_cap (some max) = some (if ltb 0 max then max else default_max_decompressed)
