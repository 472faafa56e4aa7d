-- ===== src/Api/Session/Levels.antt =====
-- What each role may do.
use simpledeploy.Prelude.{
  false, ℕ, Bool, true, ◌&&◌, none, some, List, [], ◌∷◌, suc, ◌≡◌, ◌↔◌, ◌⊎◌, inl, inr, refl, arith,
  get_elem?, any, eqb, Bool-cases, Option-cases,
}
use simpledeploy.Prelude.Text.{Text, text_eq, text_beq_iff, codes}
use simpledeploy.Store.Tables.{User, AccessRow, AppRow, UserDb}
use simpledeploy.Store.Users.{get_user_by_id}
use simpledeploy.Store.Access.{slug_is, granted, is_super, has_app_access, has_app_access_by_id}
use simpledeploy.Api.Session.{
  AuthUser, is_super_admin, is_manage, app_access_middleware, mutating_app_middleware,
  check_app_access_by_id, can_mutate_for_app, super_admin_middleware,
}
use simpledeploy.Api.Session.Rows.{IsRow, get_user_by_id-IsRow}

any-row :
    {A : Type 0} (test : A → Bool) (xs : List A)
    → any test xs ≡ true
    → (i : ℕ) × (x : A) × (get_elem? xs i ≡ some x) × (test x ≡ true)
any-row test [] h = cc
any-row test (x ∷ xs) h = elim (Bool-cases (test x)) [
  | inl this ↦ (0, x, refl, this)
  | inr other ↦
      let (i, y, here, right) = any-row test xs (ground (arith, other)) in (suc i, y, here, right)
]

-- The user is a super_admin of the table, or a row of access joins the user to an app of that slug.
abbrev pub IsMember : ℕ → Text → UserDb → Type 0
IsMember user_id slug db =
    (v : User) × IsRow user_id db v
    × ((v.role ≡ codes "super_admin")
        ⊎ ((g : AccessRow) × (a : AppRow) × (i : ℕ) × (j : ℕ) × (get_elem? db.access i ≡ some g)
            × (get_elem? db.apps j ≡ some a)
            × (g.user_id ≡ user_id)
            × (g.app_id ≡ a.id)
            × (a.slug ≡ slug)))

granted-row :
    (user_id : ℕ) (slug : Text) (db : UserDb)
    → granted user_id slug db ≡ true
    → (g : AccessRow) × (a : AppRow) × (i : ℕ) × (j : ℕ) × (get_elem? db.access i ≡ some g)
      × (get_elem? db.apps j ≡ some a)
      × (g.user_id ≡ user_id)
      × (g.app_id ≡ a.id)
      × (a.slug ≡ slug)
granted-row user_id slug db h =
    let (i, g, row, gives) =
      any-row (λ r. eqb r.user_id user_id && any (slug_is r.app_id slug) db.apps) db.access h in
    let (j, a, app, is) = any-row (slug_is g.app_id slug) db.apps (ground arith) in
    (g, a, i, j, row, app, ground arith, ground arith, (text_beq_iff a.slug slug).0 (ground arith))

has_app_access-IsMember :
    (user_id : ℕ) (slug : Text) (db : UserDb)
    → has_app_access user_id slug db ≡ true
    → IsMember user_id slug db
unfolding has_app_access
has_app_access-IsMember user_id slug db h = elim (Option-cases (get_user_by_id user_id db)) [
  | inl missing ↦ cc (rw (has_app_access, missing) at h)
  | inr (v, found) ↦
      let row = get_user_by_id-IsRow user_id db v found in
      elim (Bool-cases (is_super v)) [
        | inl super ↦ (v, row, inl ((text_beq_iff v.role (codes "super_admin")).0 super))
        | inr plain ↦ (
          v,
          row,
          inr (granted-row user_id slug db (rw plain at (rw (has_app_access, found) at h))),
        )
      ]
]

access_or_not :
    (user_id : ℕ) (slug : Text) (db : UserDb)
    → (has_app_access user_id slug db ≡ false) ⊎ IsMember user_id slug db
access_or_not user_id slug db = elim (Bool-cases (has_app_access user_id slug db)) [
  | inl granted_one ↦ inr (has_app_access-IsMember user_id slug db granted_one)
  | inr shut ↦ inl shut
]

super-role : (u : AuthUser) → (is_super_admin u ≡ true) ↔ (u.role ≡ codes "super_admin")
super-role u = text_beq_iff u.role (codes "super_admin")

manage-role : (u : AuthUser) → (is_manage u ≡ true) ↔ (u.role ≡ codes "manage")
manage-role u = text_beq_iff u.role (codes "manage")

-- The requests of super_admin, and the rules of all apps, are open to the role "super_admin" alone. An
-- app may be seen, by its slug or its id, by that role and by whoever has access to it, and changed by
-- that role and by those of them with the role "manage"; a request without a slug is as one for an app
-- that all have access to. And access by slug needs a row of the user that is a super_admin, or a row
-- that joins the user to an app of that slug.
pub roles_nest :
    (u : AuthUser) (slug : Text) (app_id : ℕ) (db : UserDb)
    → ((super_admin_middleware (some u) ≡ none) ↔ (u.role ≡ codes "super_admin"))
      × ((can_mutate_for_app (some u) none db ≡ none) ↔ (u.role ≡ codes "super_admin"))
      × ((app_access_middleware (some u) slug db ≡ none)
          ↔ ((u.role ≡ codes "super_admin") ⊎ ((slug ≡ []) ⊎ (has_app_access u.id slug db ≡ true))))
      × ((mutating_app_middleware (some u) slug db ≡ none) ↔ (
          (u.role ≡ codes "super_admin")
          ⊎ ((u.role ≡ codes "manage") × ((slug ≡ []) ⊎ (has_app_access u.id slug db ≡ true)))))
      × ((check_app_access_by_id (some u) app_id db ≡ none)
          ↔ ((u.role ≡ codes "super_admin") ⊎ (has_app_access_by_id u.id app_id db ≡ true)))
      × ((can_mutate_for_app (some u) (some app_id) db ≡ none) ↔ (
          (u.role ≡ codes "super_admin")
          ⊎ ((u.role ≡ codes "manage") × (has_app_access_by_id u.id app_id db ≡ true))))
      × ((has_app_access u.id slug db ≡ false) ⊎ IsMember u.id slug db)
unfolding mutating_app_middleware app_access_middleware can_mutate_for_app check_app_access_by_id
    super_admin_middleware
roles_nest u slug app_id db = (
  ground (arith, super-role u),
  ground (arith, super-role u),
  ground (arith, super-role u, text_beq_iff slug []),
  ground (arith, super-role u, manage-role u, text_beq_iff slug []),
  ground (arith, super-role u),
  ground (arith, super-role u, manage-role u),
  access_or_not u.id slug db,
)
