-- ===== src/Auth/Lockout.antt =====
-- internal/auth/lockout.go: progressive lockout of a key (a user name, or an IP) after failures.
-- Times are nanoseconds, and 0 is the zero `time.Time`. The mutex makes each method one step.
pub mod History
use simpledeploy.Prelude.{
  ℕ, ◌+◌, ◌-◌, ◌*◌, ◌^◌, String, ◌≡◌, refl, Bool, true, false, not, ◌&&◌, Option, none, some, [],
  ltb, leb, if◌then◌else◌, string_eq,
}
use simpledeploy.Prelude.Dict.{Dict, lookup, insert, erase, filter}

pub record LockoutEntry : Type 0 where
  pub failures : ℕ
  pub locked_until : ℕ

pub record LoginLockout : Type 0 where
  pub entries : Dict String LockoutEntry
  pub threshold : ℕ

abbrev pub minute : ℕ
minute = 60000000000

unfoldable pub new : ℕ → LoginLockout
new threshold = record { entries = []; threshold = threshold }

abbrev now_before : ℕ → Option LockoutEntry → Bool
now_before now none = false
now_before now (some e) = ltb now e.locked_until

unfoldable pub is_locked : LoginLockout → String → ℕ → Bool
is_locked l key now = now_before now (lookup key l.entries)

-- `math.Pow(2, exp)` minutes, at most 30.
unfoldable pub lock_minutes : ℕ → ℕ
lock_minutes exp = if ltb 30 (2 ^ exp) then 30 else 2 ^ exp

-- The entry of a key, made on its first failure.
abbrev pub entry_of : Option LockoutEntry → LockoutEntry
entry_of none = record { failures = 0; locked_until = 0 }
entry_of (some e) = e

unfoldable pub fail_entry : ℕ → ℕ → LockoutEntry → LockoutEntry
fail_entry threshold now e =
    let failures = e.failures + 1 in
    if leb threshold failures
    then record {
      failures = failures;
      locked_until = now + lock_minutes (failures - threshold) * minute;
    }
    else record { failures = failures; locked_until = e.locked_until }

unfoldable pub record_failure : LoginLockout → String → ℕ → LoginLockout
record_failure l key now = record l {
  entries = insert key (fail_entry l.threshold now (entry_of (lookup key l.entries))) l.entries;
}

unfoldable pub record_success : LoginLockout → String → LoginLockout
record_success l key = record l { entries = erase key l.entries }

-- The test under which `Cleanup` deletes an entry.
unfoldable pub stale : ℕ → ℕ → LockoutEntry → Bool
stale threshold now e = ltb e.locked_until now && ltb e.failures threshold

unfoldable pub cleanup : LoginLockout → ℕ → LoginLockout
cleanup l now = record l { entries = filter (λ e. not (stale l.threshold now e)) l.entries }
