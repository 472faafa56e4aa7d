-- ===== src/Store/Access.antt =====
-- internal/store/users.go: which apps a user may see.
use simpledeploy.Prelude.{
  ℕ, Bool, true, false, ◌&&◌, Option, none, some, List, [], ◌∷◌, ◌++◌, eqb, if◌then◌else◌, any,
  ◌==◌,
}
use simpledeploy.Prelude.Text.{Text, text_eq, codes}
use simpledeploy.Store.Tables.{User, AccessRow, AppRow, UserDb, find_row, delete_rows}
use simpledeploy.Store.Users.{is_user, is_named, get_user_by_id}

abbrev pub is_access : ℕ → ℕ → AccessRow → Bool
is_access user_id app_id g = eqb g.user_id user_id && eqb g.app_id app_id

abbrev pub is_app : ℕ → AppRow → Bool
is_app app_id a = eqb a.id app_id

-- INSERT OR IGNORE of a row.
abbrev pub add_access : ℕ → ℕ → List AccessRow → List AccessRow
add_access user_id app_id rows =
    if any (is_access user_id app_id) rows
    then rows
    else rows ++ record { user_id = user_id; app_id = app_id } ∷ []

-- Both ids are references.
unfoldable pub grant_app_access : ℕ → ℕ → UserDb → Option UserDb
grant_app_access user_id app_id db =
    if any (is_user user_id) db.users && any (is_app app_id) db.apps
    then some (record db { access = add_access user_id app_id db.access })
    else none

unfoldable pub revoke_app_access : ℕ → ℕ → UserDb → UserDb
unfolding delete_rows
revoke_app_access user_id app_id db = record db {
  access = delete_rows (is_access user_id app_id) db.access;
}

abbrev pub is_super : User → Bool
is_super u = u.role == codes "super_admin"

abbrev pub slug_is : ℕ → Text → AppRow → Bool
slug_is app_id slug a = eqb a.id app_id && a.slug == slug

abbrev pub granted : ℕ → Text → UserDb → Bool
granted user_id slug db =
    any (λ g. eqb g.user_id user_id && any (slug_is g.app_id slug) db.apps) db.access

unfoldable pub has_app_access : ℕ → Text → UserDb → Bool
unfolding get_user_by_id
has_app_access user_id slug db = elim (get_user_by_id user_id db) [
  | none ↦ false
  | some u ↦ if is_super u then true else granted user_id slug db
]

unfoldable pub has_app_access_by_id : ℕ → ℕ → UserDb → Bool
unfolding get_user_by_id
has_app_access_by_id user_id app_id db = elim (get_user_by_id user_id db) [
  | none ↦ false
  | some u ↦ if is_super u then true else any (is_access user_id app_id) db.access
]

-- Unknown users are skipped.
unfoldable pub grant_names : ℕ → List Text → List User → List AccessRow → List AccessRow
unfolding find_row
grant_names app_id [] users rows = rows
grant_names app_id (name ∷ names) users rows =
    grant_names app_id names users
      (elim (find_row (is_named name) users) [ none ↦ rows | some u ↦ add_access u.id app_id rows ])

unfoldable pub replace_app_access : ℕ → List Text → UserDb → UserDb
unfolding grant_names delete_rows
replace_app_access app_id usernames db = record db {
  access = grant_names app_id usernames db.users (delete_rows (λ g. eqb g.app_id app_id) db.access);
}
