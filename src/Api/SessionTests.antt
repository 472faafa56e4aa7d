-- ===== src/Api/SessionTests.antt =====
-- internal/api/middleware.go on a small database.
use simpledeploy.Prelude.{
  false, true, Option, some, none, List, [], ◌∷◌, ◌≡◌, ◌↔◌, refl, arith, ◌⊎◌,
}
use simpledeploy.Prelude.Text.{Text, text_eq, codes, text_beq}
use simpledeploy.Store.Tables.{User, UserDb}
use simpledeploy.Store.Users.{get_user_by_id, upsert_user_by_username}
use simpledeploy.Store.Keys.{get_api_key_by_hash}
use simpledeploy.Store.Access.{revoke_app_access, has_app_access, has_app_access_by_id}
use simpledeploy.Store.History.{Op, logout, add_user, set_profile, apply_op, run_ops}
use simpledeploy.Store.Ended.{by_logout}
use simpledeploy.Api.Session.{
  Claims, AuthUser, refused, as_user, auth_user, header_key, auth_middleware, app_access_middleware,
  mutating_app_middleware, check_app_access_by_id, can_mutate_for_app, super_admin_middleware,
}
use simpledeploy.Api.Session.Sound.{session_ended}
use simpledeploy.Api.Session.Levels.{IsMember, roles_nest}
use simpledeploy.Api.Session.Grants.{revoke_app_access-refuses}

abbrev vera : User
vera = record {
  id = 2;
  username = codes "vera";
  password_hash = codes "h";
  role = codes "viewer";
  display_name = [];
  email = [];
  token_version = 3;
}

abbrev small_db : UserDb
small_db = record {
  users = vera ∷ [];
  last_user = 2;
  keys =
      record { id = 1; user_id = 2; key_hash = codes "k"; name = codes "ci"; expires_at = some 50 }
      ∷ [];
  last_key = 1;
  access = record { user_id = 2; app_id = 7 } ∷ [];
  apps = record { id = 7; slug = codes "shop" } ∷ [];
}

-- A token is the text "t", and a key is its own hash.
abbrev vera_claims : Claims
vera_claims = record {
  user_id = 2;
  username = codes "vera";
  role = codes "viewer";
  token_version = 3;
}

abbrev same_text : Text → Text
same_text s = s

abbrev check_token : Text → Option Claims
check_token token = some vera_claims

vera_found : get_user_by_id 2 small_db ≡ some vera
unfolding get_user_by_id
vera_found = refl

abbrev vera_actor : AuthUser
vera_actor = auth_user vera

by_header :
    auth_middleware same_text (some check_token) 40 (codes "Bearer k") none small_db
    ≡ as_user vera_actor (codes "api")
unfolding auth_middleware header_key get_api_key_by_hash text_beq
by_header = refl

expired_key_refused :
    auth_middleware same_text (some check_token) 60 (codes "Bearer k") (some (codes "t")) small_db
    ≡ refused 401
unfolding auth_middleware header_key get_api_key_by_hash text_beq
expired_key_refused = refl

abbrev later : List Op
later = add_user (codes "vic") (codes "h") (codes "viewer") [] [] ∷ []

session_ended_example :
    auth_middleware same_text
      (some check_token)
      40
      []
      (some (codes "t"))
      (run_ops later (apply_op (logout 2) (run_ops (set_profile 2 [] [] ∷ []) small_db)))
    ≡ auth_middleware same_text
        (some check_token)
        40
        []
        none
        (run_ops later (apply_op (logout 2) (run_ops (set_profile 2 [] [] ∷ []) small_db)))
session_ended_example =
    session_ended same_text (some check_token) 40 [] (codes "t") vera_claims small_db vera
      (set_profile 2 [] [] ∷ []) later (logout 2) refl
      (record { unique = (refl, tt); given = refl }) vera_found refl by_logout

roles_nest_example :
    ((super_admin_middleware (some vera_actor) ≡ none) ↔ (codes "viewer" ≡ codes "super_admin"))
    × ((can_mutate_for_app (some vera_actor) none small_db ≡ none)
        ↔ (codes "viewer" ≡ codes "super_admin"))
    × ((app_access_middleware (some vera_actor) (codes "shop") small_db ≡ none) ↔ (
        (codes "viewer" ≡ codes "super_admin")
        ⊎ ((codes "shop" ≡ []) ⊎ (has_app_access 2 (codes "shop") small_db ≡ true))))
    × ((mutating_app_middleware (some vera_actor) (codes "shop") small_db ≡ none) ↔ (
        (codes "viewer" ≡ codes "super_admin")
        ⊎ ((codes "viewer" ≡ codes "manage")
            × ((codes "shop" ≡ []) ⊎ (has_app_access 2 (codes "shop") small_db ≡ true)))))
    × ((check_app_access_by_id (some vera_actor) 7 small_db ≡ none)
        ↔ ((codes "viewer" ≡ codes "super_admin") ⊎ (has_app_access_by_id 2 7 small_db ≡ true)))
    × ((can_mutate_for_app (some vera_actor) (some 7) small_db ≡ none) ↔ (
        (codes "viewer" ≡ codes "super_admin")
        ⊎ ((codes "viewer" ≡ codes "manage") × (has_app_access_by_id 2 7 small_db ≡ true))))
    × ((has_app_access 2 (codes "shop") small_db ≡ false) ⊎ IsMember 2 (codes "shop") small_db)
roles_nest_example = roles_nest vera_actor (codes "shop") 7 small_db

revoke_app_access-refuses_example :
    (app_access_middleware (some (auth_user vera)) (codes "shop") (revoke_app_access 2 7 small_db)
      ≡ some 404)
    × (check_app_access_by_id (some (auth_user vera)) 7 (revoke_app_access 2 7 small_db) ≡ some 404)
    × (has_app_access 5 (codes "shop") (revoke_app_access 2 7 small_db)
        ≡ has_app_access 5 (codes "shop") small_db)
unfolding text_beq
revoke_app_access-refuses_example =
    revoke_app_access-refuses vera 7 5 (codes "shop") (codes "shop") small_db vera_found refl refl
      refl (omega arith)

-- A user that is imported with a new password keeps its sessions.
imported_keeps_session :
    auth_middleware same_text
      (some check_token)
      40
      []
      (some (codes "t"))
      (upsert_user_by_username (codes "vera") (codes "new") (codes "viewer") [] [] small_db)
    ≡ as_user vera_actor (codes "ui")
unfolding auth_middleware upsert_user_by_username text_beq
imported_keeps_session = refl
