-- ===== src/Api/Session/Sound.antt =====
-- A request acts as a user only by a key or a session of that user, and an ended session is worth nothing.
use simpledeploy.Prelude.{
  ℕ, ◌≤◌, suc, ◌++◌, get_elem?, Option, none, some, List, ◌≡◌, arith, ◌⊎◌, inl, inr, Option-cases,
}
use simpledeploy.Prelude.Text.{Text, text_eq, codes}
use simpledeploy.Store.Tables.{User, ApiKeyRecord, UserDb}
use simpledeploy.Store.Users.{get_user_by_id}
use simpledeploy.Store.History.{Op, apply_op, run_ops}
use simpledeploy.Store.Since.{IsSince, run_ops-IsSince, get_user_by_id-since}
use simpledeploy.Store.Ended.{IsKeyed, Ends, Ends-IsSince, issued-IsSince}
use simpledeploy.Api.Session.{Claims, refused, claims_of, by_claims, auth_middleware}
use simpledeploy.Api.Session.Rows.{IsRow}

module _ (hash_api_key : Text → Text) (validate : Option (Text → Option Claims)) (now : ℕ) where
  -- A row of the table of keys, whose user is `u`, whose hash is that of what follows "Bearer " in the
  -- header, and whose time of expiry, if it has one, is not before `now`.
  abbrev pub OwnsKey : Text → UserDb → User → Type 0
  OwnsKey authorization db u =
      (secret : Text) × (authorization ≡ codes "Bearer " ++ secret)
      × (k : ApiKeyRecord) × (i : ℕ) × (get_elem? db.keys i ≡ some k)
      × (k.key_hash ≡ hash_api_key secret)
      × ((k.expires_at ≡ none) ⊎ ((t : ℕ) × (k.expires_at ≡ some t) × (now ≤ t)))
      × IsRow k.user_id db u

  -- The user of a valid session token, whose version is the present one.
  abbrev pub OwnsSession : Option Text → UserDb → User → Type 0
  OwnsSession cookie db u =
      (token : Text) × (check : Text → Option Claims) × (c : Claims) × (cookie ≡ some token)
      × (validate ≡ some check)
      × (check token ≡ some c)
      × IsRow c.user_id db u
      × (c.token_version ≡ u.token_version)

  -- A row whose version is later than the token's, or no row, refuses the token.
  by_claims-since :
      (c : Claims) (db : UserDb)
      → IsSince c.user_id (suc c.token_version) db
      → by_claims hash_api_key validate now db (some c) ≡ refused 401
  by_claims-since c db e = elim (Option-cases (get_user_by_id c.user_id db)) [
    | inl gone ↦ rw gone
    | inr (u, found) ↦
        rw found (ground (arith, get_user_by_id-since c.user_id (suc c.token_version) db u found e))
  ]

  auth_middleware-cookie :
      (authorization token : Text) (c : Claims) (db : UserDb)
      → claims_of hash_api_key validate now (some token) ≡ some c
      → by_claims hash_api_key validate now db (some c) ≡ refused 401
      → auth_middleware hash_api_key validate now authorization (some token) db
        ≡ auth_middleware hash_api_key validate now authorization none db
  unfolding auth_middleware
  auth_middleware-cookie authorization token c db valid ended = rw (valid, ended)

  -- A session token that was issued to a user is worth as much as none once that user has signed out
  -- or was given a new role or password by these statements, or was deleted: whatever statements came
  -- before and come after, imports and new users included.
  pub session_ended :
      (authorization token : Text) (c : Claims) (issued : UserDb) (u : User)
      (before after : List Op) (op : Op)
      → claims_of hash_api_key validate now (some token) ≡ some c
      → IsKeyed issued
      → get_user_by_id c.user_id issued ≡ some u
      → c.token_version ≡ u.token_version
      → Ends c.user_id op
      → auth_middleware hash_api_key validate now authorization
          (some token)
          (run_ops after (apply_op op (run_ops before issued)))
        ≡ auth_middleware hash_api_key validate now authorization none
            (run_ops after (apply_op op (run_ops before issued)))
  session_ended authorization token c issued u before after op valid keyed found version ends =
      let start : IsSince c.user_id c.token_version issued =
        rw version (issued-IsSince c.user_id issued u keyed found) in
      let held = run_ops-IsSince c.user_id c.token_version before issued start in
      let ended = Ends-IsSince c.user_id c.token_version op (run_ops before issued) ends held in
      auth_middleware-cookie authorization token c _ valid
        (by_claims-since c _ (run_ops-IsSince c.user_id (suc c.token_version) after _ ended))
