-- ===== src/Auth/Lockout/History.antt =====
-- The lockout against the history of a key: failures in a row, and the time of the last one.
use native.Mathlib.Nat.{pow-suc}
use native.Mathlib.Numerals.{add-one}
use simpledeploy.Prelude.{
  ℕ, ◌+◌, ◌-◌, ◌*◌, ◌≤◌, String, ◌≡◌, not, Option, none, some, List, [], ◌∷◌, arith, leb,
  if◌then◌else◌, ◌==◌, string_eq, ◌^◌, zero, suc,
}
use simpledeploy.Prelude.Dict.{IsMap, insert-IsMap, erase-IsMap, lookup-filter}
use simpledeploy.Auth.Lockout.{
  LockoutEntry, LoginLockout, minute, new, is_locked, lock_minutes, record_failure, record_success,
  stale, cleanup,
}

-- What a login attempt tells the lockout, newest first in a list.
pub data Attempt : Type 0 where
  failure : String → ℕ → Attempt
  success : String → Attempt

unfoldable pub run : ℕ → List Attempt → LoginLockout
run threshold [] = new threshold
run threshold (failure key now ∷ h) = record_failure (run threshold h) key now
run threshold (success key ∷ h) = record_success (run threshold h) key

-- The failures of `key` since its last success.
abbrev pub streak : String → List Attempt → ℕ
streak key [] = 0
streak key (failure j now ∷ h) = if j == key then streak key h + 1 else streak key h
streak key (success j ∷ h) = if j == key then 0 else streak key h

abbrev pub last_failure : String → List Attempt → ℕ
last_failure key [] = 0
last_failure key (failure j now ∷ h) = if j == key then now else last_failure key h
last_failure key (success j ∷ h) = last_failure key h

-- The entry that a history leaves for a key.
abbrev entry_at : ℕ → ℕ → ℕ → Option LockoutEntry
entry_at threshold last n =
    if leb n 0
    then none
    else some (record {
      failures = n;
      locked_until = if leb threshold n then last + lock_minutes (n - threshold) * minute else 0;
    })

pow_pos : (n : ℕ) → 1 ≤ 2 ^ n
pow_pos zero = omega arith
pow_pos (suc n) = omega (arith, pow-suc 2 n, pow_pos n)

pow_double : (n : ℕ) → 2 ^ (n + 1) ≡ 2 * 2 ^ n
pow_double n = rw add-one (omega (arith, pow-suc 2 n))

-- A lock lasts at least one minute and at most thirty, and never gets shorter with one more failure.
pub lock_minutes_bounds :
    (exp : ℕ)
    → (1 ≤ lock_minutes exp) × (lock_minutes exp ≤ 30) × (lock_minutes exp ≤ lock_minutes (exp + 1))
unfolding lock_minutes
lock_minutes_bounds exp = ground (arith, pow_pos exp, pow_double exp)

pub run-IsMap : (n : ℕ) (h : List Attempt) → IsMap (run n h).entries
unfolding run new record_failure record_success
run-IsMap n [] = tt
run-IsMap n (failure j now ∷ h) = insert-IsMap j _ (run n h).entries (run-IsMap n h)
run-IsMap n (success j ∷ h) = erase-IsMap j (run n h).entries (run-IsMap n h)

-- Cleanup never opens a lock: from its time on, every key is locked or not as before.
pub is_locked-cleanup :
    (l : LoginLockout) (now later : ℕ) (key : String)
    → IsMap l.entries
    → now ≤ later
    → is_locked (cleanup l now) key later ≡ is_locked l key later
unfolding is_locked cleanup stale
is_locked-cleanup l now later key h le =
    ground (arith, lookup-filter (λ e. not (stale l.threshold now e)) key l.entries h)
