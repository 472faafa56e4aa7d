-- ===== src/Api/Login/Works.antt =====
-- A session that a login gave is that of its user.
use simpledeploy.Prelude.{
  ℕ, Bool, true, false, not, Option, none, some, List, [], ◌∷◌, ◌≡◌, refl, ap, arith, eqb,
  if◌then◌else◌, any, String, ◌⊎◌, ◌++◌, Bool-cases, inl, inr,
}
use simpledeploy.Prelude.Text.{Text, codes}
use simpledeploy.Auth.Lockout.{LoginLockout, is_locked, record_success}
use simpledeploy.Store.Tables.{User, UserDb, find_row}
use simpledeploy.Store.Users.{is_user, is_named, get_user_by_id, get_user_by_username}
use simpledeploy.Store.Ended.{Unique, IsKeyed}
use simpledeploy.Api.Session.{Claims, as_user, auth_user, auth_middleware}
use simpledeploy.Api.Login.{
  LoginAnswer, refused, signed_in, LoginRequest, LockoutKeys, keys_of, claims_for, any_locked,
  forget_failures, give_token, check_user, login_body, handle_login,
}

found-other_id :
    (test : User → Bool) (us : List User) (u : User) (i : ℕ)
    → find_row test us ≡ some u
    → any (is_user i) us ≡ false
    → eqb i u.id ≡ false
unfolding find_row
found-other_id test [] u i found h = cc
found-other_id test (x ∷ us) u i found h = ground (arith, found-other_id test us u i)

-- The row that is found by its name is found by its id too.
found-by_id :
    (test : User → Bool) (us : List User) (u : User)
    → find_row test us ≡ some u
    → Unique us
    → find_row (is_user u.id) us ≡ some u
unfolding find_row
found-by_id test [] u found k = cc
found-by_id test (x ∷ us) u found k = elim (Bool-cases (test x)) [
  | inl this ↦ ground (arith, this)
  | inr other ↦
      let rest : find_row test us ≡ some u = ground (arith, other) in
      ground (arith, found-other_id test us u x.id rest k.0, found-by_id test us u rest k.1)
]

user-by_id :
    (username : Text) (db : UserDb) (u : User)
    → IsKeyed db
    → get_user_by_username username db ≡ some u
    → get_user_by_id u.id db ≡ some u
unfolding get_user_by_username get_user_by_id
user-by_id username db u keyed found = found-by_id (is_named username) db.users u found keyed.unique

-- Without a lockout there is none after either. With one, neither the name at the address nor the
-- address was locked, and both have their failures erased.
abbrev pub WasOpen : Option LoginLockout → Option LoginLockout → String → String → ℕ → Type 0
WasOpen lockout lockout' user_key ip_key now =
    ((lockout ≡ none) × (lockout' ≡ none))
    ⊎ ((l : LoginLockout) × (lockout ≡ some l)
        × (is_locked l user_key now ≡ false)
        × (is_locked l ip_key now ≡ false)
        × (lockout' ≡ some (record_success (record_success l user_key) ip_key)))

free-WasOpen :
    (lockout lockout' : Option LoginLockout) (k : LockoutKeys) (now : ℕ)
    → any_locked lockout k now ≡ false
    → lockout' ≡ forget_failures lockout k
    → WasOpen lockout lockout' k.user_key k.ip_key now
free-WasOpen none lockout' k now free forgot = inl (refl, forgot)
free-WasOpen (some l) lockout' k now free forgot = inr (l, refl, ground arith, ground arith, forgot)

module _ (check : Text → Text → Bool) (generate : Claims → Option Text) (as_string : Text → String)
    (now : ℕ) where
  give_token-inverse :
      (lockout lockout' : Option LoginLockout) (k : LockoutKeys) (u v : User) (found : Option Text)
      (token : Text)
      → give_token check (some generate) as_string now lockout k u found
        ≡ (lockout', signed_in token v)
      → (found ≡ some token) × (u ≡ v) × (lockout' ≡ forget_failures lockout k)
  give_token-inverse lockout lockout' k u v none token h = cc
  give_token-inverse lockout lockout' k u v (some t) token h =
      (ground arith, ground arith, ground arith)

  check_user-inverse :
      (lockout lockout' : Option LoginLockout) (k : LockoutKeys) (password token : Text)
      (found : Option User) (v : User)
      → check_user check (some generate) as_string now lockout k password found
        ≡ (lockout', signed_in token v)
      → (found ≡ some v)
        × (check v.password_hash password ≡ true)
        × (generate (claims_for v) ≡ some token)
        × (lockout' ≡ forget_failures lockout k)
  check_user-inverse lockout lockout' k password token none v h = cc
  check_user-inverse lockout lockout' k password token (some u) v h =
      elim (Bool-cases (check u.password_hash password)) [
        | inr wrong ↦ cc (rw wrong at h)
        | inl right ↦
            let (given, same, forgot) =
              give_token-inverse lockout lockout' k u v (generate (claims_for u)) token
                (rw right at h) in
            (ap some same, rw (← same) right, rw (← same) given, forgot)
      ]

  login_body-inverse :
      (lockout lockout' : Option LoginLockout) (r : LoginRequest) (db : UserDb)
      (body : Option (Text × Text)) (token : Text) (v : User)
      → login_body check (some generate) as_string now lockout r db body
        ≡ (lockout', signed_in token v)
      → (username : Text) × (password : Text) × (body ≡ some (username, password))
        × (any_locked lockout (keys_of as_string r.ip username) now ≡ false)
        × (get_user_by_username username db ≡ some v)
        × (check v.password_hash password ≡ true)
        × (generate (claims_for v) ≡ some token)
        × (lockout' ≡ forget_failures lockout (keys_of as_string r.ip username))
  login_body-inverse lockout lockout' r db none token v h = cc
  login_body-inverse lockout lockout' r db (some (username, password)) token v h =
      elim (Bool-cases (any_locked lockout (keys_of as_string r.ip username) now)) [
        | inl locked ↦ cc (rw locked at h)
        | inr free ↦
            let (found, right, given, forgot) =
              check_user-inverse lockout lockout' (keys_of as_string r.ip username) password token
                (get_user_by_username username db) v (rw free at h) in
            (username, password, refl, free, found, right, given, forgot)
      ]

  within_rate-inverse :
      (within : Bool) (lockout lockout' : Option LoginLockout)
      (answer : Option LoginLockout × LoginAnswer) (token : Text) (v : User)
      → (if not within then (lockout, refused 429) else answer) ≡ (lockout', signed_in token v)
      → answer ≡ (lockout', signed_in token v)
  within_rate-inverse true lockout lockout' answer token v h = h
  within_rate-inverse false lockout lockout' answer token v h = cc

  session_works :
      (hash_api_key : Text → Text) (validate : Text → Option Claims) (later : ℕ) (db : UserDb)
      (u : User) (token : Text)
      → get_user_by_id u.id db ≡ some u
      → validate token ≡ some (claims_for u)
      → auth_middleware hash_api_key (some validate) later [] (some token) db
        ≡ as_user (auth_user u) (codes "ui")
  unfolding auth_middleware
  session_works hash_api_key validate later db u token found valid =
      rw valid (rw found (ground arith))

  -- Who signs in gave the password of the user with that name; with a lockout, neither the name at that
  -- address nor the address was locked, and the failures of both are erased; and if the token is read
  -- back as the claims it was made of, it lets requests through as that user, on a table whose ids are
  -- distinct and as long as it stays as it is.
  pub handle_login-signs_in :
      (hash_api_key : Text → Text) (validate : Text → Option Claims) (later : ℕ)
      (lockout lockout' : Option LoginLockout) (r : LoginRequest) (db : UserDb) (token : Text)
      (v : User)
      → IsKeyed db
      → handle_login check (some generate) as_string now lockout r db
        ≡ (lockout', signed_in token v)
      → (generate (claims_for v) ≡ some token → validate token ≡ some (claims_for v))
      → ((username : Text) × (password : Text) × (r.body ≡ some (username, password))
          × WasOpen lockout lockout'
              (as_string (codes "user:" ++ username ++ codes "@" ++ r.ip))
              (as_string (codes "ip:" ++ r.ip))
              now
          × (get_user_by_username username db ≡ some v)
          × (check v.password_hash password ≡ true))
        × (auth_middleware hash_api_key (some validate) later [] (some token) db
            ≡ as_user (auth_user v) (codes "ui"))
  unfolding handle_login
  handle_login-signs_in hash_api_key validate later lockout lockout' r db token v keyed done reads =
      let (username, password, body, free, found, right, given, forgot) =
        login_body-inverse lockout lockout' r db r.body token v
          (within_rate-inverse r.within_rate lockout lockout' _ token v done) in
      (
        (
          username,
          password,
          body,
          free-WasOpen lockout lockout' (keys_of as_string r.ip username) now free forgot,
          found,
          right,
        ),
        session_works hash_api_key validate later db v token (user-by_id username db v keyed found)
            (reads given),
      )
