-- ===== src/Api/LoginTests.antt =====
-- internal/api/auth.go on a small database.
use simpledeploy.Prelude.{
  ◌++◌, Bool, true, eqb, if◌then◌else◌, Option, some, [], ◌∷◌, ◌≡◌, refl, String, ◌==◌,
}
use simpledeploy.Prelude.Text.{Text, text_eq, codes, text_beq}
use simpledeploy.Auth.Lockout.{
  LoginLockout, is_locked, record_failure, record_success, fail_entry, lock_minutes,
}
use simpledeploy.Prelude.Dict.{lookup, insert, erase}
use simpledeploy.Store.Tables.{User, UserDb}
use simpledeploy.Store.Users.{get_user_by_username}
use simpledeploy.Api.Session.{Claims, as_user, auth_user, auth_middleware}
use simpledeploy.Api.Login.{refused, signed_in, LoginRequest, handle_login, claims_for}
use simpledeploy.Api.Login.Works.{WasOpen, handle_login-signs_in}

abbrev nora : User
nora = record {
  id = 1;
  username = codes "nora";
  password_hash = codes "pw";
  role = codes "manage";
  display_name = [];
  email = [];
  token_version = 4;
}

abbrev nora_db : UserDb
nora_db = record {
  users = nora ∷ [];
  last_user = 1;
  keys = [];
  last_key = 0;
  access = [];
  apps = [];
}

-- A hash is the password, a token is "t", and a key of the lockout is the kind of it.
abbrev same_password : Text → Text → Bool
same_password hash password = hash == password

abbrev make_token : Claims → Option Text
make_token c = some (codes "t")

abbrev read_token : Text → Option Claims
read_token token = some (claims_for nora)

abbrev kind_of : Text → String
kind_of [] = ""
kind_of (c ∷ s) = if eqb c 117 then "user" else "ip"

abbrev login_as : Text → LoginRequest
login_as password = record {
  within_rate = true;
  body = some (codes "nora", password);
  ip = codes "::1";
}

abbrev no_failures : LoginLockout
no_failures = record { entries = []; threshold = 1 }

nora_in :
    handle_login same_password
      (some make_token)
      kind_of
      9
      (some no_failures)
      (login_as (codes "pw"))
      nora_db
    ≡ (some no_failures, signed_in (codes "t") nora)
unfolding handle_login is_locked record_success get_user_by_username text_beq lookup erase
nora_in = refl

handle_login-signs_in_example :
    ((username : Text) × (password : Text) × ((login_as (codes "pw")).body
        ≡ some (username, password))
      × WasOpen
          (some no_failures)
          (some no_failures)
          (kind_of (codes "user:" ++ username ++ codes "@::1"))
          (kind_of (codes "ip:::1"))
          9
      × (get_user_by_username username nora_db ≡ some nora)
      × (same_password (codes "pw") password ≡ true))
    × (auth_middleware (λ s. s) (some read_token) 9 [] (some (codes "t")) nora_db
        ≡ as_user (auth_user nora) (codes "ui"))
handle_login-signs_in_example =
    handle_login-signs_in same_password make_token kind_of 9 (λ s. s) read_token 9
      (some no_failures) (some no_failures) (login_as (codes "pw")) nora_db (codes "t") nora
      (record { unique = (refl, tt); given = refl }) nora_in (λ h. refl)

-- One wrong password locks the name out, and then the right one is refused too.
locked_out :
    (handle_login same_password
      (some make_token)
      kind_of
      9
      (handle_login same_password
        (some make_token)
        kind_of
        9
        (some no_failures)
        (login_as (codes "no"))
        nora_db).0
      (login_as (codes "pw"))
      nora_db).1
    ≡ refused 401
unfolding handle_login is_locked record_failure record_success get_user_by_username text_beq
    fail_entry lookup insert lock_minutes
locked_out = refl
