-- ===== src/Api/Setup.antt =====
-- internal/api/auth.go: the first account, and signing out.
pub mod Once
pub mod SignedOut
use simpledeploy.Prelude.{
  ℕ, ◌+◌, Bool, not, ◌||◌, Option, none, some, List, [], ltb, if◌then◌else◌, length, ◌==◌,
}
use simpledeploy.Prelude.Text.{Text, text_eq, codes}
use simpledeploy.Prelude.Lines.{trim_runes}
use simpledeploy.Store.Tables.{User, UserDb}
use simpledeploy.Store.Users.{create_user, update_profile, bump_token_version}
use simpledeploy.Api.Session.{Claims}

pub record SetupRequest : Type 0 where
  pub username : Text
  pub password : Text
  pub display_name : Text
  pub email : Text

-- A status of an error, or the name and the role of the new user.
pub data SetupAnswer : Type 0 where
  failed : ℕ → SetupAnswer
  created : Text → Text → SetupAnswer

abbrev pub super_admin : Text
super_admin = codes "super_admin"

abbrev pub done : SetupRequest → SetupAnswer
done r = created r.username super_admin

abbrev pub profile_saved : SetupRequest → UserDb → Option UserDb → UserDb × SetupAnswer
profile_saved r db none = (db, failed 500)
profile_saved r db (some db') = (db', done r)

abbrev pub user_created : SetupRequest → ℕ → UserDb → Option UserDb → UserDb × SetupAnswer
user_created r id db none = (db, failed 500)
user_created r id db (some db') =
    if not (r.display_name == []) || not (r.email == [])
    then profile_saved r db' (update_profile id r.display_name r.email db')
    else (db', done r)

-- `hash` is bcrypt, which may fail. The id of a new user is the one after the last that was given.
module _ (hash : Text → Option Text) where
  abbrev pub password_hashed : SetupRequest → UserDb → Option Text → UserDb × SetupAnswer
  password_hashed r db none = (db, failed 500)
  password_hashed r db (some h) =
      user_created r (db.last_user + 1) db (create_user r.username h super_admin [] [] db)

  abbrev pub setup_body : UserDb → Option SetupRequest → UserDb × SetupAnswer
  setup_body db none = (db, failed 400)
  setup_body db (some r) =
      if trim_runes r.username == []
      then (db, failed 400)
      else if ltb (length r.password) 8
      then (db, failed 400)
      else password_hashed r db (hash r.password)

  -- The mutex of the server makes it one step.
  unfoldable pub handle_setup : Option SetupRequest → UserDb → UserDb × SetupAnswer
  unfolding create_user update_profile
  handle_setup body db = if ltb 0 (length db.users) then (db, failed 409) else setup_body db body

abbrev pub sign_out : UserDb → Option Claims → UserDb
sign_out db none = db
sign_out db (some c) = bump_token_version c.user_id db

abbrev pub cookie_claims : Option (Text → Option Claims) → Option Text → Option Claims
cookie_claims (some validate) (some token) = validate token
cookie_claims (some validate) none = none
cookie_claims none cookie = none

-- The cookie is best effort: without a valid one nothing changes. `validate` is none where no JWT is
-- configured.
unfoldable pub handle_logout : Option (Text → Option Claims) → Option Text → UserDb → UserDb
unfolding bump_token_version
handle_logout validate cookie db = sign_out db (cookie_claims validate cookie)
