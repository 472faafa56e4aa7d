-- ===== src/Api/Session/Rows.antt =====
-- The rows that the lookups of a session or a key find.
use simpledeploy.Prelude.{
  ℕ, ◌≤◌, suc, Bool, [], ◌∷◌, ◌++◌, length, drop, get_elem?, ap, eqb_iff, true, false, none, some,
  List, ◌≡◌, refl, arith, ◌⊎◌, inl, inr, Bool-cases, Option-cases,
}
use simpledeploy.Prelude.Text.{Text, text_eq, text_beq_iff, codes, has_prefix, trim_prefix}
use simpledeploy.Store.Tables.{User, ApiKeyRecord, UserDb, find_row}
use simpledeploy.Store.Users.{is_user, get_user_by_id}
use simpledeploy.Store.Keys.{has_hash, join_user, get_api_key_by_hash}
use simpledeploy.Api.Session.{is_expired}

-- A row that a lookup finds stands in the table and has what was looked for.
found-row :
    {A : Type 0} (test : A → Bool) (xs : List A) (x : A)
    → find_row test xs ≡ some x
    → (i : ℕ) × (get_elem? xs i ≡ some x) × (test x ≡ true)
unfolding find_row
found-row test [] x found = cc
found-row test (y ∷ xs) x found = elim (Bool-cases (test y)) [
  | inl this ↦
      let same : some y ≡ some x = rw this at found in
      let at_x : y ≡ x = cc in (0, same, rw at_x at this)
  | inr other ↦
      let (i, here, right) = found-row test xs x (rw other at found) in (suc i, here, right)
]

-- A row of the table of users with this id.
abbrev pub IsRow : ℕ → UserDb → User → Type 0
IsRow id db u = (i : ℕ) × (get_elem? db.users i ≡ some u) × (u.id ≡ id)

pub get_user_by_id-IsRow :
    (id : ℕ) (db : UserDb) (u : User) → get_user_by_id id db ≡ some u → IsRow id db u
unfolding get_user_by_id
get_user_by_id-IsRow id db u found =
    let (i, here, right) = found-row (is_user id) db.users u found in
    (i, here, (eqb_iff u.id id).0 right)

has_prefix-split : (s p : Text) → has_prefix s p ≡ true → s ≡ p ++ drop (length p) s
unfolding has_prefix
has_prefix-split s [] h = refl
has_prefix-split [] (d ∷ p) h = cc
has_prefix-split (c ∷ s) (d ∷ p) h =
    let same : c ≡ d = ground arith in
    rw same (ap (λ t. d ∷ t) (has_prefix-split s p (ground arith)))

pub bearer_secret :
    (authorization : Text)
    → has_prefix authorization (codes "Bearer ") ≡ true
    → authorization ≡ codes "Bearer " ++ trim_prefix authorization (codes "Bearer ")
unfolding trim_prefix
bearer_secret authorization h = rw h (has_prefix-split authorization (codes "Bearer ") h)

join_user-IsRow :
    (db : UserDb) (j k : ApiKeyRecord) (u : User)
    → join_user db j ≡ some (k, u)
    → (j ≡ k) × IsRow k.user_id db u
join_user-IsRow db j k u h = elim (Option-cases (get_user_by_id j.user_id db)) [
  | inl gone ↦ cc (rw (join_user, gone) at h)
  | inr (v, found) ↦
      let joined : some (j, v) ≡ some (k, u) = rw (join_user, found) at h in
      let at_k : j ≡ k = cc in
      let at_u : v ≡ u = cc in
      (at_k, get_user_by_id-IsRow k.user_id db u (rw (at_k, at_u) at found))
]

pub get_api_key_by_hash-IsRow :
    (hash : Text) (db : UserDb) (k : ApiKeyRecord) (u : User)
    → get_api_key_by_hash hash db ≡ some (k, u)
    → (i : ℕ) × (get_elem? db.keys i ≡ some k) × (k.key_hash ≡ hash) × IsRow k.user_id db u
unfolding get_api_key_by_hash
get_api_key_by_hash-IsRow hash db k u h = elim (Option-cases (find_row (has_hash hash) db.keys)) [
  | inl missing ↦ cc (rw (get_api_key_by_hash, missing) at h)
  | inr (j, found) ↦
      let (same, row) = join_user-IsRow db j k u (rw (get_api_key_by_hash, found) at h) in
      let (i, here, right) = found-row (has_hash hash) db.keys j found in
      (i, rw same at here, (text_beq_iff k.key_hash hash).0 (rw same at right), row)
]

pub is_expired-bound :
    (now : ℕ) (k : ApiKeyRecord)
    → is_expired now k ≡ false
    → (k.expires_at ≡ none) ⊎ ((t : ℕ) × (k.expires_at ≡ some t) × (now ≤ t))
is_expired-bound now k fresh = elim (Option-cases k.expires_at) [
  | inl never ↦ inl never
  | inr (t, expires) ↦ let kept = rw expires at fresh in inr (t, expires, ground arith)
]
