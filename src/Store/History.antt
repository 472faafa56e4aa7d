-- ===== src/Store/History.antt =====
-- Any sequence of the statements of internal/store/users.go, and a session that one of them ended.
use simpledeploy.Prelude.{ℕ, Option, none, some, List, [], ◌∷◌}
use simpledeploy.Prelude.Text.{Text}
use simpledeploy.Store.Tables.{UserDb}
use simpledeploy.Store.Users.{
  create_user, delete_user, update_profile, update_user_role, update_password, bump_token_version,
  upsert_user_by_username, update_user_from_redacted,
}
use simpledeploy.Store.Keys.{create_api_key, delete_api_key, upsert_api_key}
use simpledeploy.Store.Access.{grant_app_access, revoke_app_access, replace_app_access}

pub data Op : Type 0 where
  add_user : Text → Text → Text → Text → Text → Op
  remove_user : ℕ → Op
  set_profile : ℕ → Text → Text → Op
  set_role : ℕ → Text → Op
  set_password : ℕ → Text → Op
  logout : ℕ → Op
  add_key : ℕ → Text → Text → Option ℕ → Op
  remove_key : ℕ → ℕ → Op
  grant : ℕ → ℕ → Op
  revoke : ℕ → ℕ → Op
  replace_access : ℕ → List Text → Op
  import_user : Text → Text → Text → Text → Text → Op
  import_redacted : Text → Text → Text → Text → Op
  import_key : Text → Text → Text → Option ℕ → Op

-- An error changes nothing.
abbrev pub or_same : UserDb → Option UserDb → UserDb
or_same db none = db
or_same db (some db') = db'

unfoldable pub apply_op : Op → UserDb → UserDb
apply_op (add_user name hash role display email) db =
    or_same db (create_user name hash role display email db)
apply_op (remove_user id) db = or_same db (delete_user id db)
apply_op (set_profile id display email) db = or_same db (update_profile id display email db)
apply_op (set_role id role) db = or_same db (update_user_role id role db)
apply_op (set_password id hash) db = or_same db (update_password id hash db)
apply_op (logout id) db = bump_token_version id db
apply_op (add_key id hash name expires) db = or_same db (create_api_key id hash name expires db)
apply_op (remove_key id user_id) db = or_same db (delete_api_key id user_id db)
apply_op (grant id app_id) db = or_same db (grant_app_access id app_id db)
apply_op (revoke id app_id) db = revoke_app_access id app_id db
apply_op (replace_access app_id names) db = replace_app_access app_id names db
apply_op (import_user name hash role display email) db =
    upsert_user_by_username name hash role display email db
apply_op (import_redacted name role display email) db =
    update_user_from_redacted name role display email db
apply_op (import_key name hash key_name expires) db =
    or_same db (upsert_api_key name hash key_name expires db)

unfoldable pub run_ops : List Op → UserDb → UserDb
unfolding apply_op
run_ops [] db = db
run_ops (op ∷ ops) db = run_ops ops (apply_op op db)
