-- ===== src/Api/SetupTests.antt =====
-- internal/api/auth.go: the first account, on an empty database.
use simpledeploy.Prelude.{Bool, true, Option, some, none, List, [], ◌∷◌, ◌≡◌, refl, String, ◌==◌}
use simpledeploy.Prelude.Text.{Text, text_eq, codes, text_beq}
use simpledeploy.Prelude.Lines.{trim_runes, trim_by, space_at, space_before}
use simpledeploy.Store.Tables.{UserDb}
use simpledeploy.Store.Users.{get_user_by_id}
use simpledeploy.Store.History.{Op, add_user, run_ops}
use simpledeploy.Api.Session.{Claims, auth_middleware}
use simpledeploy.Api.Login.{signed_in, handle_login, claims_for}
use simpledeploy.Api.Setup.{SetupRequest, failed, handle_setup, handle_logout}
use simpledeploy.Api.Setup.Once.{first_admin, with_admin, IsGood, handle_setup-handle_login}
use simpledeploy.Api.Setup.SignedOut.{handle_logout-session_ended}

abbrev empty_db : UserDb
empty_db = record { users = []; last_user = 0; keys = []; last_key = 0; access = []; apps = [] }

abbrev root_request : SetupRequest
root_request = record {
  username = codes "root";
  password = codes "password";
  display_name = codes "Root";
  email = [];
}

-- A hash is the password, and a token the user name.
abbrev plain_hash : Text → Option Text
plain_hash password = some password

abbrev plain_check : Text → Text → Bool
plain_check hash password = hash == password

abbrev name_token : Claims → Option Text
name_token c = some c.username

abbrev as_empty : Text → String
as_empty s = ""

root-IsGood : IsGood plain_hash root_request (codes "password")
unfolding text_beq trim_runes trim_by space_at space_before
root-IsGood = record { named = refl; long = refl; hashed = refl }

root_checked : plain_check (codes "password") root_request.password ≡ true
unfolding text_beq
root_checked = refl

handle_setup-handle_login_example :
    (handle_login plain_check
        (some name_token)
        as_empty
        5
        none
        (record {
          within_rate = true;
          body = some (codes "root", codes "password");
          ip = codes "::1";
        })
        (handle_setup plain_hash (some root_request) empty_db).0
      ≡ (none, signed_in (codes "root") (first_admin root_request (codes "password") empty_db)))
    × (handle_setup plain_hash none (handle_setup plain_hash (some root_request) empty_db).0
        ≡ (with_admin root_request (codes "password") empty_db, failed 409))
handle_setup-handle_login_example =
    handle_setup-handle_login plain_hash plain_check name_token as_empty 5 (codes "::1")
      root_request none empty_db (codes "password") (codes "root") refl root-IsGood root_checked
      refl

-- Seven bytes are too short for a password.
short_password :
    handle_setup plain_hash (some (record root_request { password = codes "passwor" })) empty_db
    ≡ (empty_db, failed 400)
unfolding handle_setup text_beq trim_runes trim_by space_at space_before
short_password = refl

abbrev root_db : UserDb
root_db = with_admin root_request (codes "password") empty_db

abbrev root_claims : Claims
root_claims = claims_for (first_admin root_request (codes "password") empty_db)

abbrev read_root : Text → Option Claims
read_root token = some root_claims

abbrev more_users : List Op
more_users = add_user (codes "vic") (codes "h") (codes "viewer") [] [] ∷ []

root_found : get_user_by_id 1 root_db ≡ some (first_admin root_request (codes "password") empty_db)
unfolding get_user_by_id
root_found = refl

handle_logout-session_ended_example :
    auth_middleware
      (λ s. s)
      (some read_root)
      5
      []
      (some (codes "t"))
      (run_ops more_users
        (handle_logout (some read_root) (some (codes "t")) (run_ops more_users root_db)))
    ≡ auth_middleware
        (λ s. s)
        (some read_root)
        5
        []
        none
        (run_ops more_users
          (handle_logout (some read_root) (some (codes "t")) (run_ops more_users root_db)))
handle_logout-session_ended_example =
    handle_logout-session_ended (λ s. s) read_root 5 [] (codes "t") root_claims root_db
      (first_admin root_request (codes "password") empty_db) more_users more_users refl
      (record { unique = (refl, tt); given = refl }) root_found refl
