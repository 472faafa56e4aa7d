-- ===== src/Store/Ended.antt =====
-- A session that a statement on its user ended stays ended.
use simpledeploy.Prelude.{
  ℕ, suc, ◌+◌, ◌≤◌, true, false, some, List, [], ◌∷◌, ◌≡◌, refl, arith, leb, any, all, Bool-cases,
  inl, inr,
}
use simpledeploy.Prelude.Text.{Text}
use simpledeploy.Store.Tables.{User, UserDb, find_row, update_rows, delete_rows}
use simpledeploy.Store.Users.{
  is_user, bump_version, change_user, delete_user, update_user_role, update_password,
  bump_token_version, get_user_by_id,
}
use simpledeploy.Store.History.{Op, remove_user, set_role, set_password, logout, or_same, apply_op}
use simpledeploy.Store.Since.{IsSince, is_since}

-- After a bump the rows of the user have the next version or a later one.
bump-since :
    (id v : ℕ) (change : User → User) (us : List User)
    → ((u : User) → (change u).token_version ≡ u.token_version + 1)
    → all (is_since id v) us ≡ true
    → all (is_since id (suc v)) (update_rows (is_user id) change us) ≡ true
unfolding update_rows
bump-since id v change [] up h = refl
bump-since id v change (u ∷ us) up h = ground (arith, up u, bump-since id v change us up)

none-since :
    (id v : ℕ) (us : List User) → any (is_user id) us ≡ false → all (is_since id v) us ≡ true
none-since id v [] h = refl
none-since id v (u ∷ us) h = ground (arith, none-since id v us)

deleted-since :
    (id v : ℕ) (us : List User) → all (is_since id v) (delete_rows (is_user id) us) ≡ true
unfolding delete_rows
deleted-since id v [] = refl
deleted-since id v (u ∷ us) = ground (arith, deleted-since id v us)

-- The statements that end the sessions of a user: sign out, a new role or password, deletion.
pub data Ends (id : ℕ) : Op → Type 0 where
  by_logout : Ends id (logout id)
  by_role : (role : Text) → Ends id (set_role id role)
  by_password : (hash : Text) → Ends id (set_password id hash)
  by_removal : Ends id (remove_user id)

changed-IsSince :
    (id v : ℕ) (change : User → User) (db : UserDb)
    → ((u : User) → (change u).token_version ≡ u.token_version + 1)
    → IsSince id v db
    → IsSince id (suc v) (or_same db (change_user id change db))
changed-IsSince id v change db up e = elim (Bool-cases (any (is_user id) db.users)) [
  | inl there ↦
      rw there (record { given = e.given; since = bump-since id v change db.users up e.since })
  | inr missing ↦
      rw missing (record { given = e.given; since = none-since id (suc v) db.users missing })
]

removed-IsSince :
    (id v : ℕ) (db : UserDb) → IsSince id v db → IsSince id (suc v) (or_same db (delete_user id db))
unfolding delete_user
removed-IsSince id v db e = elim (Bool-cases (any (is_user id) db.users)) [
  | inl there ↦ rw there (record { given = e.given; since = deleted-since id (suc v) db.users })
  | inr missing ↦
      rw missing (record { given = e.given; since = none-since id (suc v) db.users missing })
]

pub Ends-IsSince :
    (id v : ℕ) (op : Op) (db : UserDb)
    → Ends id op
    → IsSince id v db
    → IsSince id (suc v) (apply_op op db)
unfolding apply_op update_user_role update_password bump_token_version
Ends-IsSince id v op db by_logout e = record {
  given = e.given;
  since = bump-since id v bump_version db.users (λ u. refl) e.since;
}
Ends-IsSince id v op db (by_role role) e = changed-IsSince id v _ db (λ u. refl) e
Ends-IsSince id v op db (by_password hash) e = changed-IsSince id v _ db (λ u. refl) e
Ends-IsSince id v op db by_removal e = removed-IsSince id v db e

-- PRIMARY KEY AUTOINCREMENT: no two rows have one id, and no id is past the last one given.
abbrev pub Unique : List User → Type 0
Unique [] = Unit
Unique (u ∷ us) = (any (is_user u.id) us ≡ false) × Unique us

pub record IsKeyed (db : UserDb) : Type 0 where
  pub unique : Unique db.users
  pub given : all (λ u. leb u.id db.last_user) db.users ≡ true

found-since :
    (id : ℕ) (us : List User) (u : User)
    → find_row (is_user id) us ≡ some u
    → Unique us
    → all (is_since id u.token_version) us ≡ true
unfolding find_row
found-since id [] u found k = cc
found-since id (x ∷ us) u found k =
    ground (arith, k.0, found-since id us u, none-since id u.token_version us)

found-given :
    (id last : ℕ) (us : List User) (u : User)
    → find_row (is_user id) us ≡ some u
    → all (λ u. leb u.id last) us ≡ true
    → id ≤ last
unfolding find_row
found-given id last [] u found k = cc
found-given id last (x ∷ us) u found k = ground (arith, found-given id last us u)

-- A session is issued with the version that its user has.
pub issued-IsSince :
    (id : ℕ) (db : UserDb) (u : User)
    → IsKeyed db
    → get_user_by_id id db ≡ some u
    → IsSince id u.token_version db
unfolding get_user_by_id
issued-IsSince id db u k found = record {
  given = found-given id db.last_user db.users u found k.given;
  since = found-since id db.users u found k.unique;
}
