-- ===== src/Store/Since.antt =====
-- No statement takes the version of a user back.
use simpledeploy.Prelude.{
  ℕ, ◌+◌, ◌≤◌, Bool, true, not, ◌||◌, Option, some, List, [], ◌∷◌, ◌++◌, ◌≡◌, refl, arith, leb, eqb,
  any, all, Bool-cases, inl, inr,
}
use simpledeploy.Prelude.Text.{Text}
use simpledeploy.Store.Tables.{User, UserDb, find_row, update_rows, delete_rows}
use simpledeploy.Store.Users.{
  is_user, is_named, bump_version, change_user, create_user, delete_user, update_profile,
  update_user_role, update_password, bump_token_version, upsert_user_by_username,
  update_user_from_redacted, get_user_by_id,
}
use simpledeploy.Store.Keys.{create_api_key, delete_api_key, upsert_api_key}
use simpledeploy.Store.Access.{grant_app_access, revoke_app_access, replace_app_access}
use simpledeploy.Store.History.{
  Op, add_user, remove_user, set_profile, set_role, set_password, logout, add_key, remove_key,
  grant, revoke, replace_access, import_user, import_redacted, import_key, or_same, apply_op,
  run_ops,
}

-- Each row of the user has the version `v` or a later one.
abbrev pub is_since : ℕ → ℕ → User → Bool
is_since id v u = not (eqb u.id id) || leb v u.token_version

-- The id was given before, and each row of it has the version `v` or a later one.
pub record IsSince (id v : ℕ) (db : UserDb) : Type 0 where
  pub given : id ≤ db.last_user
  pub since : all (is_since id v) db.users ≡ true

-- No change of a row takes it back to an older version or gives it another id.
abbrev KeepsSince : (User → User) → Type 0
KeepsSince change = (id v : ℕ) (u : User) → is_since id v u ≡ true → is_since id v (change u) ≡ true

all-update_rows :
    (id v : ℕ) (test : User → Bool) (change : User → User) (us : List User)
    → KeepsSince change
    → all (is_since id v) us ≡ true
    → all (is_since id v) (update_rows test change us) ≡ true
unfolding update_rows
all-update_rows id v test change [] keeps h = refl
all-update_rows id v test change (u ∷ us) keeps h =
    ground (arith, keeps id v u, all-update_rows id v test change us keeps)

all-delete_rows :
    (p test : User → Bool) (us : List User) → all p us ≡ true → all p (delete_rows test us) ≡ true
unfolding delete_rows
all-delete_rows p test [] h = refl
all-delete_rows p test (u ∷ us) h = ground (arith, all-delete_rows p test us)

all-add_row :
    (p : User → Bool) (us : List User) (u : User)
    → all p us ≡ true
    → p u ≡ true
    → all p (us ++ u ∷ []) ≡ true
all-add_row p [] u h k = ground arith
all-add_row p (x ∷ us) u h k = ground (arith, all-add_row p us u)

bump_version-KeepsSince : KeepsSince bump_version
bump_version-KeepsSince id v u h = ground arith

module _ (id v : ℕ) where
  change_row :
      (test : User → Bool) (change : User → User) (db : UserDb)
      → KeepsSince change
      → IsSince id v db
      → IsSince id v (record db { users = update_rows test change db.users })
  change_row test change db keeps e = record {
    given = e.given;
    since = all-update_rows id v test change db.users keeps e.since;
  }

  insert_row :
      (db : UserDb) (u : User)
      → u.id ≡ db.last_user + 1
      → IsSince id v db
      → IsSince id v (record db { users = db.users ++ u ∷ []; last_user = db.last_user + 1 })
  insert_row db u fresh e = record {
    given = omega (arith, e.given);
    since = all-add_row (is_since id v) db.users u e.since (ground (arith, e.given));
  }

  create_user-IsSince :
      (name hash role display email : Text) (db : UserDb)
      → IsSince id v db
      → IsSince id v (or_same db (create_user name hash role display email db))
  unfolding create_user
  create_user-IsSince name hash role display email db e =
      elim (Bool-cases (any (is_named name) db.users)) [
        | inl taken ↦ rw taken e
        | inr free ↦ rw free (insert_row db _ refl e)
      ]

  delete_user-IsSince :
      (gone : ℕ) (db : UserDb) → IsSince id v db → IsSince id v (or_same db (delete_user gone db))
  unfolding delete_user
  delete_user-IsSince gone db e = elim (Bool-cases (any (is_user gone) db.users)) [
    | inl there ↦ rw there (record {
      given = e.given;
      since = all-delete_rows (is_since id v) (is_user gone) db.users e.since;
    })
    | inr missing ↦ rw missing e
  ]

  change_user-IsSince :
      (who : ℕ) (change : User → User) (db : UserDb)
      → KeepsSince change
      → IsSince id v db
      → IsSince id v (or_same db (change_user who change db))
  change_user-IsSince who change db keeps e = elim (Bool-cases (any (is_user who) db.users)) [
    | inl there ↦ rw there (change_row (is_user who) change db keeps e)
    | inr missing ↦ rw missing e
  ]

  upsert_user-IsSince :
      (name hash role display email : Text) (db : UserDb)
      → IsSince id v db
      → IsSince id v (upsert_user_by_username name hash role display email db)
  unfolding upsert_user_by_username
  upsert_user-IsSince name hash role display email db e =
      elim (Bool-cases (any (is_named name) db.users)) [
        | inl there ↦ rw there (change_row (is_named name) _ db (λ i w u h. h) e)
        | inr free ↦ rw free (insert_row db _ refl e)
      ]

  upsert_redacted-IsSince :
      (name role display email : Text) (db : UserDb)
      → IsSince id v db
      → IsSince id v (update_user_from_redacted name role display email db)
  unfolding update_user_from_redacted
  upsert_redacted-IsSince name role display email db e =
      elim (Bool-cases (any (is_named name) db.users)) [
        | inl there ↦ rw there (change_row (is_named name) _ db (λ i w u h. h) e)
        | inr free ↦ rw free (insert_row db _ refl e)
      ]

  -- The statements on keys and access leave the users alone.
  record_keys-IsSince :
      (db db' : UserDb)
      → db'.users ≡ db.users
      → db'.last_user ≡ db.last_user
      → IsSince id v db
      → IsSince id v db'
  record_keys-IsSince db db' same last e = record {
    given = omega (arith, e.given);
    since = rw same e.since;
  }

  create_api_key-IsSince :
      (who : ℕ) (hash name : Text) (expires : Option ℕ) (db : UserDb)
      → IsSince id v db
      → IsSince id v (or_same db (create_api_key who hash name expires db))
  unfolding create_api_key
  create_api_key-IsSince who hash name expires db e =
      record_keys-IsSince db _ (ground arith) (ground arith) e

  delete_api_key-IsSince :
      (key who : ℕ) (db : UserDb)
      → IsSince id v db
      → IsSince id v (or_same db (delete_api_key key who db))
  unfolding delete_api_key
  delete_api_key-IsSince key who db e = record_keys-IsSince db _ (ground arith) (ground arith) e

  grant-IsSince :
      (who app_id : ℕ) (db : UserDb)
      → IsSince id v db
      → IsSince id v (or_same db (grant_app_access who app_id db))
  unfolding grant_app_access
  grant-IsSince who app_id db e = record_keys-IsSince db _ (ground arith) (ground arith) e

  upsert_api_key-IsSince :
      (name hash key_name : Text) (expires : Option ℕ) (db : UserDb)
      → IsSince id v db
      → IsSince id v (or_same db (upsert_api_key name hash key_name expires db))
  unfolding upsert_api_key
  upsert_api_key-IsSince name hash key_name expires db e =
      record_keys-IsSince db _ (ground arith) (ground arith) e

  apply_op-IsSince : (op : Op) (db : UserDb) → IsSince id v db → IsSince id v (apply_op op db)
  unfolding apply_op update_profile update_user_role update_password bump_token_version
      revoke_app_access replace_app_access
  apply_op-IsSince (add_user name hash role display email) db e =
      create_user-IsSince name hash role display email db e
  apply_op-IsSince (remove_user who) db e = delete_user-IsSince who db e
  apply_op-IsSince (set_profile who display email) db e =
      change_user-IsSince who _ db (λ i w u h. h) e
  apply_op-IsSince (set_role who role) db e =
      change_user-IsSince who _ db (λ i w u h. bump_version-KeepsSince i w u h) e
  apply_op-IsSince (set_password who hash) db e =
      change_user-IsSince who _ db (λ i w u h. bump_version-KeepsSince i w u h) e
  apply_op-IsSince (logout who) db e =
      change_row (is_user who) bump_version db bump_version-KeepsSince e
  apply_op-IsSince (add_key who hash name expires) db e =
      create_api_key-IsSince who hash name expires db e
  apply_op-IsSince (remove_key key who) db e = delete_api_key-IsSince key who db e
  apply_op-IsSince (grant who app_id) db e = grant-IsSince who app_id db e
  apply_op-IsSince (revoke who app_id) db e = record { given = e.given; since = e.since }
  apply_op-IsSince (replace_access app_id names) db e = record { given = e.given; since = e.since }
  apply_op-IsSince (import_user name hash role display email) db e =
      upsert_user-IsSince name hash role display email db e
  apply_op-IsSince (import_redacted name role display email) db e =
      upsert_redacted-IsSince name role display email db e
  apply_op-IsSince (import_key name hash key_name expires) db e =
      upsert_api_key-IsSince name hash key_name expires db e

  pub run_ops-IsSince :
      (ops : List Op) (db : UserDb) → IsSince id v db → IsSince id v (run_ops ops db)
  unfolding run_ops
  run_ops-IsSince [] db e = e
  run_ops-IsSince (op ∷ ops) db e = run_ops-IsSince ops (apply_op op db) (apply_op-IsSince op db e)

  -- A row that is found has the version or a later one.
  find_row-since :
      (us : List User) (u : User)
      → find_row (is_user id) us ≡ some u
      → all (is_since id v) us ≡ true
      → v ≤ u.token_version
  unfolding find_row
  find_row-since [] u found h = cc
  find_row-since (x ∷ us) u found h = ground (arith, find_row-since us u)

  pub get_user_by_id-since :
      (db : UserDb) (u : User)
      → get_user_by_id id db ≡ some u
      → IsSince id v db
      → v ≤ u.token_version
  unfolding get_user_by_id
  get_user_by_id-since db u found e = find_row-since db.users u found e.since
