-- ===== src/Api/Setup/SignedOut.antt =====
-- A session that was signed out stays ended.
use simpledeploy.Prelude.{ℕ, Option, some, none, List, ◌≡◌}
use simpledeploy.Prelude.Text.{Text}
use simpledeploy.Store.Tables.{User, UserDb}
use simpledeploy.Store.Users.{get_user_by_id}
use simpledeploy.Store.History.{Op, logout, apply_op, run_ops}
use simpledeploy.Store.Ended.{IsKeyed, by_logout}
use simpledeploy.Api.Session.{Claims, auth_middleware}
use simpledeploy.Api.Session.Sound.{session_ended}
use simpledeploy.Api.Setup.{handle_logout}

handle_logout-op :
    (validate : Text → Option Claims) (token : Text) (c : Claims) (db : UserDb)
    → validate token ≡ some c
    → handle_logout (some validate) (some token) db ≡ apply_op (logout c.user_id) db
unfolding handle_logout apply_op
handle_logout-op validate token c db valid = rw valid

-- After a sign-out with the session token of a user, the token is worth as much as none: whatever
-- statements came between its issue and the sign-out, and whatever come after.
pub handle_logout-session_ended :
    (hash_api_key : Text → Text) (validate : Text → Option Claims) (now : ℕ)
    (authorization token : Text) (c : Claims) (issued : UserDb) (u : User) (before after : List Op)
    → validate token ≡ some c
    → IsKeyed issued
    → get_user_by_id c.user_id issued ≡ some u
    → c.token_version ≡ u.token_version
    → auth_middleware hash_api_key
        (some validate)
        now
        authorization
        (some token)
        (run_ops after (handle_logout (some validate) (some token) (run_ops before issued)))
      ≡ auth_middleware hash_api_key
          (some validate)
          now
          authorization
          none
          (run_ops after (handle_logout (some validate) (some token) (run_ops before issued)))
handle_logout-session_ended hash_api_key validate now authorization token c issued u before after
      valid keyed found version =
    rw (handle_logout-op validate token c (run_ops before issued) valid) (
      session_ended hash_api_key (some validate) now authorization token c issued u before after
        (logout c.user_id) valid keyed found version by_logout)
