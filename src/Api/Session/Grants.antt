-- ===== src/Api/Session/Grants.antt =====
-- What granting and revoking access change for a request.
use simpledeploy.Prelude.{
  ℕ, Bool, true, false, not, ◌&&◌, ◌||◌, none, some, List, [], ◌∷◌, ◌++◌, ◌≡◌, ◌≢◌, refl, sym, ap,
  ◌∙◌, arith, eqb, if◌then◌else◌, any, all, ◌==◌, Bool-cases, Option-cases, inl, inr,
}
use simpledeploy.Prelude.Text.{Text, text_eq}
use simpledeploy.Store.Tables.{User, AccessRow, AppRow, UserDb, delete_rows}
use simpledeploy.Store.Users.{get_user_by_id}
use simpledeploy.Store.Access.{
  is_access, slug_is, is_super, add_access, grant_app_access, revoke_app_access, has_app_access,
  has_app_access_by_id,
}
use simpledeploy.Api.Session.{auth_user, app_access_middleware, check_app_access_by_id}

-- The slug of an app is UNIQUE: each app of that slug has this id.
abbrev pub IsOnly : ℕ → Text → List AppRow → Type 0
IsOnly app_id slug apps = all (λ a. not (a.slug == slug) || eqb a.id app_id) apps ≡ true

slug_is-IsOnly :
    (i app_id : ℕ) (slug : Text) (apps : List AppRow)
    → any (slug_is i slug) apps ≡ true
    → IsOnly app_id slug apps
    → i ≡ app_id
slug_is-IsOnly i app_id slug [] h k = cc
slug_is-IsOnly i app_id slug (a ∷ apps) h k = ground (arith, slug_is-IsOnly i app_id slug apps)

-- Whether a row gives the user access to an app of the slug.
abbrev gives : ℕ → Text → List AppRow → AccessRow → Bool
gives user_id slug apps g = eqb g.user_id user_id && any (slug_is g.app_id slug) apps

gives-deleted :
    (user_id app_id : ℕ) (slug : Text) (apps : List AppRow) (rows : List AccessRow)
    → IsOnly app_id slug apps
    → any (gives user_id slug apps) (delete_rows (is_access user_id app_id) rows) ≡ false
unfolding delete_rows
gives-deleted user_id app_id slug apps [] k = refl
gives-deleted user_id app_id slug apps (g ∷ rows) k =
    elim (Bool-cases (any (slug_is g.app_id slug) apps)) [
      | inl same ↦ ground (
        arith,
        slug_is-IsOnly g.app_id app_id slug apps same k,
        gives-deleted user_id app_id slug apps rows k,
      )
      | inr other ↦ ground (arith, other, gives-deleted user_id app_id slug apps rows k)
    ]

access-deleted :
    (user_id app_id : ℕ) (rows : List AccessRow)
    → any (is_access user_id app_id) (delete_rows (is_access user_id app_id) rows) ≡ false
unfolding delete_rows
access-deleted user_id app_id [] = refl
access-deleted user_id app_id (g ∷ rows) = ground (arith, access-deleted user_id app_id rows)

gives-others :
    (who user_id app_id : ℕ) (slug : Text) (apps : List AppRow) (rows : List AccessRow)
    → who ≢ user_id
    → any (gives who slug apps) (delete_rows (is_access user_id app_id) rows)
      ≡ any (gives who slug apps) rows
unfolding delete_rows
gives-others who user_id app_id slug apps [] ne = refl
gives-others who user_id app_id slug apps (g ∷ rows) ne =
    ground (arith, ne, gives-others who user_id app_id slug apps rows ne)

-- The user that a statement on access rows leaves in place.
with_access : UserDb → List AccessRow → UserDb
with_access db rows = record db { access = rows }

module _ (id : ℕ) (u : User) (db : UserDb) (rows : List AccessRow)
    (found : get_user_by_id id db ≡ some u) where
  has_app_access-found :
      (slug : Text) (allowed : Bool)
      → any (gives id slug db.apps) rows ≡ allowed
      → has_app_access id slug (with_access db rows) ≡ (if is_super u then true else allowed)
  unfolding has_app_access get_user_by_id with_access
  has_app_access-found slug allowed h =
      rw (found, has_app_access) (ap (λ b. if is_super u then true else b) h)

  has_app_access_by_id-found :
      (app_id : ℕ) (allowed : Bool)
      → any (is_access id app_id) rows ≡ allowed
      → has_app_access_by_id id app_id (with_access db rows)
        ≡ (if is_super u then true else allowed)
  unfolding has_app_access_by_id get_user_by_id with_access
  has_app_access_by_id-found app_id allowed h =
      rw (found, has_app_access_by_id) (ap (λ b. if is_super u then true else b) h)

has_app_access-gone :
    (id : ℕ) (db : UserDb) (rows : List AccessRow) (slug : Text)
    → get_user_by_id id db ≡ none
    → has_app_access id slug (with_access db rows) ≡ false
unfolding has_app_access get_user_by_id with_access
has_app_access-gone id db rows slug gone = rw (gone, has_app_access)

has_app_access-others :
    (who : ℕ) (slug : Text) (db : UserDb) (rows : List AccessRow)
    → any (gives who slug db.apps) rows ≡ any (gives who slug db.apps) db.access
    → has_app_access who slug (with_access db rows) ≡ has_app_access who slug db
unfolding with_access
has_app_access-others who slug db rows h = elim (Option-cases (get_user_by_id who db)) [
  | inl gone ↦
      has_app_access-gone who db rows slug gone
      ∙ sym (has_app_access-gone who db db.access slug gone)
  | inr (u, found) ↦
      has_app_access-found who u db rows found slug _ h
      ∙ sym (has_app_access-found who u db db.access found slug _ refl)
]

-- Once the access to an app is revoked, its user is refused the app by its slug and by its id, unless
-- the user is a super_admin, and every other user keeps exactly the access to apps that it had.
pub revoke_app_access-refuses :
    (u : User) (app_id who : ℕ) (slug other : Text) (db : UserDb)
    → get_user_by_id u.id db ≡ some u
    → is_super u ≡ false
    → (slug == []) ≡ false
    → IsOnly app_id slug db.apps
    → who ≢ u.id
    → (app_access_middleware (some (auth_user u)) slug (revoke_app_access u.id app_id db)
        ≡ some 404)
      × (check_app_access_by_id (some (auth_user u)) app_id (revoke_app_access u.id app_id db)
          ≡ some 404)
      × (has_app_access who other (revoke_app_access u.id app_id db) ≡ has_app_access who other db)
unfolding app_access_middleware check_app_access_by_id revoke_app_access with_access
revoke_app_access-refuses u app_id who slug other db found plain named only ne = (
  rw (
    plain,
    named,
    has_app_access-found u.id u db (delete_rows (is_access u.id app_id) db.access) found slug false
        (gives-deleted u.id app_id slug db.apps db.access only),
    plain,
  ),
  rw (
    plain,
    has_app_access_by_id-found u.id u db (delete_rows (is_access u.id app_id) db.access) found
        app_id false (access-deleted u.id app_id db.access),
    plain,
  ),
  has_app_access-others who other db (delete_rows (is_access u.id app_id) db.access)
      (gives-others who u.id app_id other db.apps db.access ne),
)

access-added :
    (user_id app_id : ℕ) (rows : List AccessRow)
    → any (is_access user_id app_id) (add_access user_id app_id rows) ≡ true
access-added user_id app_id rows = elim (Bool-cases (any (is_access user_id app_id) rows)) [
  | inl there ↦ rw there there
  | inr missing ↦ rw missing (access_last rows)
]
  where
    access_last :
        (rs : List AccessRow)
        → any (is_access user_id app_id) (rs ++ record { user_id = user_id; app_id = app_id } ∷ [])
          ≡ true
    access_last [] = ground arith
    access_last (g ∷ rs) = ground (arith, access_last rs)

gives-access :
    (user_id app_id : ℕ) (slug : Text) (apps : List AppRow) (rows : List AccessRow)
    → any (slug_is app_id slug) apps ≡ true
    → any (is_access user_id app_id) rows ≡ true
    → any (gives user_id slug apps) rows ≡ true
gives-access user_id app_id slug apps [] k h = cc
gives-access user_id app_id slug apps (g ∷ rows) k h =
    elim (Bool-cases (is_access user_id app_id g)) [
      | inl this ↦
          let same : g.app_id ≡ app_id = ground arith in
          let mine : eqb g.user_id user_id ≡ true = ground arith in rw (mine, same, k)
      | inr other ↦ ground (arith, other, gives-access user_id app_id slug apps rows k)
    ]

grant_app_access-rows :
    (id app_id : ℕ) (db db' : UserDb)
    → grant_app_access id app_id db ≡ some db'
    → db' ≡ with_access db (add_access id app_id db.access)
unfolding grant_app_access with_access
grant_app_access-rows id app_id db db' h = ground arith

-- A grant that works lets its user see the app, by its slug and by its id.
pub grant_app_access-admits :
    (u : User) (app_id : ℕ) (slug : Text) (db db' : UserDb)
    → get_user_by_id u.id db ≡ some u
    → any (slug_is app_id slug) db.apps ≡ true
    → grant_app_access u.id app_id db ≡ some db'
    → (app_access_middleware (some (auth_user u)) slug db' ≡ none)
      × (check_app_access_by_id (some (auth_user u)) app_id db' ≡ none)
unfolding app_access_middleware check_app_access_by_id
grant_app_access-admits u app_id slug db db' found named done =
    let rows = add_access u.id app_id db.access in
    let after : db' ≡ with_access db rows = grant_app_access-rows u.id app_id db db' done in
    let seen =
      has_app_access-found u.id u db rows found slug true
        (gives-access u.id app_id slug db.apps rows named (access-added u.id app_id db.access)) in
    let seen_id =
      has_app_access_by_id-found u.id u db rows found app_id true
        (access-added u.id app_id db.access) in
    rw after (ground (arith, seen), ground (arith, seen_id))
