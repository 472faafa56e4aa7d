-- ===== src/Api/Session.antt =====
-- internal/api/middleware.go: who makes a request, and which apps and changes are open to that user.
pub mod Rows
pub mod Sound
pub mod Levels
pub mod Grants
use simpledeploy.Prelude.{
  ℕ, Bool, true, false, not, Option, none, some, List, [], ltb, eqb, if◌then◌else◌, ◌==◌,
}
use simpledeploy.Prelude.Text.{Text, text_eq, codes, has_prefix, trim_prefix}
use simpledeploy.Store.Tables.{User, ApiKeyRecord, UserDb}
use simpledeploy.Store.Users.{get_user_by_id}
use simpledeploy.Store.Keys.{get_api_key_by_hash}
use simpledeploy.Store.Access.{has_app_access, has_app_access_by_id}

-- internal/auth/jwt.go: what a session token says.
pub record Claims : Type 0 where
  pub user_id : ℕ
  pub username : Text
  pub role : Text
  pub token_version : ℕ

pub record AuthUser : Type 0 where
  pub id : ℕ
  pub username : Text
  pub role : Text

-- The status of a refusal, or the user and how it was found, as the audit log has it.
pub data Auth : Type 0 where
  refused : ℕ → Auth
  as_user : AuthUser → Text → Auth

abbrev pub auth_user : User → AuthUser
auth_user u = record { id = u.id; username = u.username; role = u.role }

-- `time.Now().After(*expires_at)`, for a key that expires.
abbrev pub is_expired : ℕ → ApiKeyRecord → Bool
is_expired now k = elim k.expires_at [ none ↦ false | some t ↦ ltb t now ]

-- The key that the header stands for, by its hash.
unfoldable pub header_key : (Text → Text) → Text → UserDb → Option (ApiKeyRecord × User)
unfolding get_api_key_by_hash trim_prefix
header_key hash_api_key authorization db =
    get_api_key_by_hash (hash_api_key (trim_prefix authorization (codes "Bearer "))) db

-- `hash_api_key` is HashAPIKey with the master secret. `validate` is the check of a token by
-- package jwt, with its signature and its expiry, or none where no jwt is configured.
module _ (hash_api_key : Text → Text) (validate : Option (Text → Option Claims)) (now : ℕ) where
  abbrev pub claims_of : Option Text → Option Claims
  claims_of none = none
  claims_of (some cookie) = elim validate [ none ↦ none | some v ↦ v cookie ]

  -- The user is looked up again, and the version of the token must be the user's.
  abbrev pub same_version : Claims → Option User → Auth
  same_version c none = refused 401
  same_version c (some u) =
      if eqb c.token_version u.token_version
      then as_user (auth_user u) (codes "ui")
      else refused 401

  abbrev pub by_claims : UserDb → Option Claims → Auth
  by_claims db none = refused 401
  by_claims db (some c) = same_version c (get_user_by_id c.user_id db)

  -- A key that is expired is refused before the cookie is read.
  abbrev pub by_key : Auth → Option (ApiKeyRecord × User) → Auth
  by_key otherwise none = otherwise
  by_key otherwise (some (k, u)) =
      if is_expired now k then refused 401 else as_user (auth_user u) (codes "api")

  -- A missing header reads as the empty text.
  unfoldable pub auth_middleware : Text → Option Text → UserDb → Auth
  unfolding get_user_by_id has_prefix
  auth_middleware authorization cookie db =
      let by_cookie = by_claims db (claims_of cookie) in
      if has_prefix authorization (codes "Bearer ")
      then by_key by_cookie (header_key hash_api_key authorization db)
      else by_cookie

-- Whether the next handler is called: none, or the status of the refusal.
abbrev pub is_super_admin : AuthUser → Bool
is_super_admin u = u.role == codes "super_admin"

abbrev pub is_manage : AuthUser → Bool
is_manage u = u.role == codes "manage"

abbrev pub unless : Bool → ℕ → Option ℕ
unless ok code = if ok then none else some code

abbrev pub slug_access : AuthUser → Text → UserDb → Option ℕ
slug_access u slug db = if slug == [] then none else unless (has_app_access u.id slug db) 404

unfoldable pub app_access_middleware : Option AuthUser → Text → UserDb → Option ℕ
unfolding has_app_access
app_access_middleware none slug db = some 401
app_access_middleware (some u) slug db = if is_super_admin u then none else slug_access u slug db

unfoldable pub mutating_app_middleware : Option AuthUser → Text → UserDb → Option ℕ
unfolding has_app_access
mutating_app_middleware none slug db = some 401
mutating_app_middleware (some u) slug db =
    if is_super_admin u then none else if not (is_manage u) then some 403 else slug_access u slug db

unfoldable pub check_app_access_by_id : Option AuthUser → ℕ → UserDb → Option ℕ
unfolding has_app_access_by_id
check_app_access_by_id none app_id db = some 401
check_app_access_by_id (some u) app_id db =
    if is_super_admin u then none else unless (has_app_access_by_id u.id app_id db) 404

abbrev pub named_app : AuthUser → Option ℕ → UserDb → Option ℕ
named_app u none db = some 403
named_app u (some app_id) db = unless (has_app_access_by_id u.id app_id db) 404

-- No app id stands for a rule of all apps.
unfoldable pub can_mutate_for_app : Option AuthUser → Option ℕ → UserDb → Option ℕ
unfolding has_app_access_by_id
can_mutate_for_app none app_id db = some 401
can_mutate_for_app (some u) app_id db =
    if is_super_admin u then none else if not (is_manage u) then some 403 else named_app u app_id db

unfoldable pub super_admin_middleware : Option AuthUser → Option ℕ
super_admin_middleware none = some 401
super_admin_middleware (some u) = unless (is_super_admin u) 403
