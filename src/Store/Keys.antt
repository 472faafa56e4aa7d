-- ===== src/Store/Keys.antt =====
-- internal/store/users.go: the statements on API keys.
use simpledeploy.Prelude.{
  ℕ, ◌+◌, Bool, not, ◌&&◌, ◌||◌, Option, none, some, [], ◌∷◌, ◌++◌, eqb, if◌then◌else◌, any, ◌==◌,
}
use simpledeploy.Prelude.Text.{Text, text_eq}
use simpledeploy.Store.Tables.{User, ApiKeyRecord, UserDb, find_row, update_rows, delete_rows}
use simpledeploy.Store.Users.{is_user, get_user_by_id, get_user_by_username}

abbrev pub has_key_name : ℕ → Text → ApiKeyRecord → Bool
has_key_name user_id name k = eqb k.user_id user_id && k.name == name

abbrev pub has_hash : Text → ApiKeyRecord → Bool
has_hash hash k = k.key_hash == hash

abbrev pub insert_key : ℕ → Text → Text → Option ℕ → UserDb → UserDb
insert_key user_id hash name expires_at db = record db {
  keys =
      db.keys
      ++ record {
        id = db.last_key + 1;
        user_id = user_id;
        key_hash = hash;
        name = name;
        expires_at = expires_at;
      }
        ∷ [];
  last_key = db.last_key + 1;
}

-- The name is free for the user, the hash is UNIQUE, and the user is there.
unfoldable pub create_api_key : ℕ → Text → Text → Option ℕ → UserDb → Option UserDb
create_api_key user_id hash name expires_at db =
    if any (has_key_name user_id name) db.keys
      || any (has_hash hash) db.keys
      || not (any (is_user user_id) db.users)
    then none
    else some (insert_key user_id hash name expires_at db)

abbrev pub join_user : UserDb → ApiKeyRecord → Option (ApiKeyRecord × User)
join_user db k = elim (get_user_by_id k.user_id db) [ none ↦ none | some u ↦ some (k, u) ]

-- `last_used_at` is telemetry and is left out.
unfoldable pub get_api_key_by_hash : Text → UserDb → Option (ApiKeyRecord × User)
unfolding get_user_by_id
get_api_key_by_hash hash db = elim (find_row (has_hash hash) db.keys) [
  | none ↦ none
  | some k ↦ join_user db k
]

abbrev pub is_owned_key : ℕ → ℕ → ApiKeyRecord → Bool
is_owned_key id user_id k = eqb k.id id && (eqb user_id 0 || eqb k.user_id user_id)

unfoldable pub delete_api_key : ℕ → ℕ → UserDb → Option UserDb
unfolding delete_rows
delete_api_key id user_id db =
    if any (is_owned_key id user_id) db.keys
    then some (record db { keys = delete_rows (is_owned_key id user_id) db.keys })
    else none

abbrev pub upsert_key_of : Text → Text → Option ℕ → UserDb → User → UserDb
upsert_key_of hash name expires_at db u =
    if any (has_hash hash) db.keys
    then record db {
      keys =
          update_rows (has_hash hash)
            (λ k. record k { user_id = u.id; name = name; expires_at = expires_at }) db.keys;
    }
    else insert_key u.id hash name expires_at db

unfoldable pub upsert_api_key : Text → Text → Text → Option ℕ → UserDb → Option UserDb
unfolding get_user_by_username update_rows
upsert_api_key username hash name expires_at db = elim (get_user_by_username username db) [
  | none ↦ none
  | some u ↦ some (upsert_key_of hash name expires_at db u)
]
