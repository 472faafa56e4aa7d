-- ===== src/Store/Users.antt =====
-- internal/store/users.go: the statements on users. A statement that SQLite fails to run changes
-- nothing and is left out; `none` is an error of the function's own.
use simpledeploy.Prelude.{
  ℕ, ◌+◌, Bool, Option, none, some, [], ◌∷◌, ◌++◌, eqb, if◌then◌else◌, any, ◌==◌,
}
use simpledeploy.Prelude.Text.{Text, text_eq}
use simpledeploy.Store.Tables.{User, UserDb, find_row, update_rows, delete_rows}

abbrev pub is_user : ℕ → User → Bool
is_user id u = eqb u.id id

abbrev pub is_named : Text → User → Bool
is_named username u = u.username == username

unfoldable pub get_user_by_username : Text → UserDb → Option User
unfolding find_row
get_user_by_username username db = find_row (is_named username) db.users

unfoldable pub get_user_by_id : ℕ → UserDb → Option User
unfolding find_row
get_user_by_id id db = find_row (is_user id) db.users

-- A row of the table, whose token_version has its default.
abbrev pub insert_user : Text → Text → Text → Text → Text → UserDb → UserDb
insert_user username hash role display_name email db = record db {
  users =
      db.users
      ++ record {
        id = db.last_user + 1;
        username = username;
        password_hash = hash;
        role = role;
        display_name = display_name;
        email = email;
        token_version = 1;
      }
        ∷ [];
  last_user = db.last_user + 1;
}

-- The column username is UNIQUE.
unfoldable pub create_user : Text → Text → Text → Text → Text → UserDb → Option UserDb
create_user username hash role display_name email db =
    if any (is_named username) db.users
    then none
    else some (insert_user username hash role display_name email db)

-- With its keys and its access rows, by ON DELETE CASCADE.
unfoldable pub delete_user : ℕ → UserDb → Option UserDb
unfolding delete_rows
delete_user id db =
    if any (is_user id) db.users
    then some (record db {
      users = delete_rows (is_user id) db.users;
      keys = delete_rows (λ k. eqb k.user_id id) db.keys;
      access = delete_rows (λ g. eqb g.user_id id) db.access;
    })
    else none

-- An UPDATE of one user: an error if there is none.
abbrev pub change_user : ℕ → (User → User) → UserDb → Option UserDb
change_user id change db =
    if any (is_user id) db.users
    then some (record db { users = update_rows (is_user id) change db.users })
    else none

abbrev pub bump_version : User → User
bump_version u = record u { token_version = u.token_version + 1 }

unfoldable pub update_profile : ℕ → Text → Text → UserDb → Option UserDb
unfolding update_rows
update_profile id display_name email db =
    change_user id (λ u. record u { display_name = display_name; email = email }) db

unfoldable pub update_user_role : ℕ → Text → UserDb → Option UserDb
unfolding update_rows
update_user_role id role db = change_user id (λ u. record (bump_version u) { role = role }) db

unfoldable pub update_password : ℕ → Text → UserDb → Option UserDb
unfolding update_rows
update_password id hash db =
    change_user id (λ u. record (bump_version u) { password_hash = hash }) db

-- No error where there is no such user.
unfoldable pub bump_token_version : ℕ → UserDb → UserDb
unfolding update_rows
bump_token_version id db = record db { users = update_rows (is_user id) bump_version db.users }

unfoldable pub upsert_user_by_username : Text → Text → Text → Text → Text → UserDb → UserDb
unfolding update_rows
upsert_user_by_username username hash role display_name email db =
    if any (is_named username) db.users
    then record db {
      users =
          update_rows (is_named username)
            (λ u. record u {
              password_hash = hash;
              role = role;
              display_name = display_name;
              email = email;
            })
            db.users;
    }
    else insert_user username hash role display_name email db

unfoldable pub update_user_from_redacted : Text → Text → Text → Text → UserDb → UserDb
unfolding update_rows
update_user_from_redacted username role display_name email db =
    if any (is_named username) db.users
    then record db {
      users =
          update_rows (is_named username)
            (λ u. record u { role = role; display_name = display_name; email = email }) db.users;
    }
    else insert_user username [] role display_name email db
