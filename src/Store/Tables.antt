-- ===== src/Store/Tables.antt =====
-- internal/store/users.go and the migrations: the tables of users, keys, access and apps.
use simpledeploy.Prelude.{ℕ, Bool, Option, none, some, List, [], ◌∷◌, if◌then◌else◌}
use simpledeploy.Prelude.Text.{Text, text_eq}

pub record User : Type 0 where
  pub id : ℕ
  pub username : Text
  pub password_hash : Text
  pub role : Text
  pub display_name : Text
  pub email : Text
  pub token_version : ℕ

pub record ApiKeyRecord : Type 0 where
  pub id : ℕ
  pub user_id : ℕ
  pub key_hash : Text
  pub name : Text
  pub expires_at : Option ℕ

pub record AccessRow : Type 0 where
  pub user_id : ℕ
  pub app_id : ℕ

pub record AppRow : Type 0 where
  pub id : ℕ
  pub slug : Text

-- The tables. An AUTOINCREMENT column never gives an id again: its last value is kept.
pub record UserDb : Type 0 where
  pub users : List User
  pub last_user : ℕ
  pub keys : List ApiKeyRecord
  pub last_key : ℕ
  pub access : List AccessRow
  pub apps : List AppRow

-- WHERE, in a SELECT of one row, an UPDATE and a DELETE.
module _ {A : Type 0} where
  unfoldable pub find_row : (A → Bool) → List A → Option A
  find_row test [] = none
  find_row test (x ∷ xs) = if test x then some x else find_row test xs

  unfoldable pub update_rows : (A → Bool) → (A → A) → List A → List A
  update_rows test change [] = []
  update_rows test change (x ∷ xs) = (if test x then change x else x) ∷ update_rows test change xs

  unfoldable pub delete_rows : (A → Bool) → List A → List A
  delete_rows test [] = []
  delete_rows test (x ∷ xs) = let rest = delete_rows test xs in if test x then rest else x ∷ rest
