-- ===== src/Api/Login.antt =====
-- internal/api/auth.go: signing in, over the lockout of internal/auth and the users of internal/store.
pub mod Works
use simpledeploy.Prelude.{
  ℕ, Bool, true, false, not, ◌&&◌, ◌||◌, Option, none, some, if◌then◌else◌, String, ◌++◌,
}
use simpledeploy.Prelude.Text.{Text, codes}
use simpledeploy.Auth.Lockout.{LoginLockout, is_locked, record_failure, record_success}
use simpledeploy.Store.Tables.{User, UserDb}
use simpledeploy.Store.Users.{get_user_by_username}
use simpledeploy.Api.Session.{Claims}

pub data LoginAnswer : Type 0 where
  refused : ℕ → LoginAnswer
  signed_in : Text → User → LoginAnswer

-- What stands in the request: whether the limiter lets the address through, and the body, where it is
-- JSON of the right form.
pub record LoginRequest : Type 0 where
  pub within_rate : Bool
  pub body : Option (Text × Text)
  pub ip : Text

-- The keys of the lockout: the user name at the address, and the address.
pub record LockoutKeys : Type 0 where
  pub user_key : String
  pub ip_key : String

abbrev pub claims_for : User → Claims
claims_for u = record {
  user_id = u.id;
  username = u.username;
  role = u.role;
  token_version = u.token_version;
}

-- `as_string` is a text as a key of the lockout.
abbrev pub keys_of : (Text → String) → Text → Text → LockoutKeys
keys_of as_string ip username = record {
  user_key = as_string (codes "user:" ++ username ++ codes "@" ++ ip);
  ip_key = as_string (codes "ip:" ++ ip);
}

-- `lockout` and `generate` are none where they are not configured.
abbrev pub any_locked : Option LoginLockout → LockoutKeys → ℕ → Bool
any_locked none k now = false
any_locked (some l) k now = is_locked l k.user_key now || is_locked l k.ip_key now

abbrev pub count_failure : Option LoginLockout → LockoutKeys → ℕ → Option LoginLockout
count_failure none k now = none
count_failure (some l) k now = some (record_failure (record_failure l k.user_key now) k.ip_key now)

abbrev pub forget_failures : Option LoginLockout → LockoutKeys → Option LoginLockout
forget_failures none k = none
forget_failures (some l) k = some (record_success (record_success l k.user_key) k.ip_key)

-- `check` is bcrypt; for a missing user the source runs it on a hash that no password has, to take as
-- long, and then refuses whatever it says. `generate` makes a token of claims; it may fail.
module _ (check : Text → Text → Bool) (generate : Option (Claims → Option Text))
    (as_string : Text → String) (now : ℕ) where
  abbrev pub token_for : User → Option Text
  token_for u = elim generate [ none ↦ none | some g ↦ g (claims_for u) ]

  abbrev pub give_token :
      Option LoginLockout → LockoutKeys → User → Option Text → Option LoginLockout × LoginAnswer
  give_token lockout k u none = (lockout, refused 500)
  give_token lockout k u (some token) = (forget_failures lockout k, signed_in token u)

  abbrev pub check_user :
      Option LoginLockout → LockoutKeys → Text → Option User → Option LoginLockout × LoginAnswer
  check_user lockout k password none = (count_failure lockout k now, refused 401)
  check_user lockout k password (some u) =
      if not (check u.password_hash password)
      then (count_failure lockout k now, refused 401)
      else give_token lockout k u (token_for u)

  abbrev pub login_body :
      Option LoginLockout
      → LoginRequest
      → UserDb
      → Option (Text × Text)
      → Option LoginLockout × LoginAnswer
  login_body lockout r db none = (lockout, refused 400)
  login_body lockout r db (some (username, password)) =
      if any_locked lockout (keys_of as_string r.ip username) now
      then (lockout, refused 401)
      else check_user lockout (keys_of as_string r.ip username) password
          (get_user_by_username username db)

  unfoldable pub handle_login :
      Option LoginLockout → LoginRequest → UserDb → Option LoginLockout × LoginAnswer
  unfolding get_user_by_username is_locked record_failure record_success
  handle_login lockout r db =
      if not r.within_rate then (lockout, refused 429) else login_body lockout r db r.body
