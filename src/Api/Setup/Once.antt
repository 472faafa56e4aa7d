-- ===== src/Api/Setup/Once.antt =====
-- The first account is made once, and can sign in.
use simpledeploy.Prelude.{
  ℕ, ◌+◌, Bool, true, false, not, ◌||◌, Option, none, some, [], ◌∷◌, ◌≡◌, refl, arith, ltb, length,
  String, ◌==◌, beq_self, Bool-cases, inl, inr,
}
use simpledeploy.Prelude.Text.{Text, text_eq, text_beq_iff}
use simpledeploy.Prelude.Lines.{trim_runes}
use simpledeploy.Store.Tables.{User, UserDb, find_row, update_rows}
use simpledeploy.Store.Users.{create_user, update_profile, get_user_by_username}
use simpledeploy.Api.Session.{Claims}
use simpledeploy.Api.Login.{signed_in, claims_for, handle_login}
use simpledeploy.Api.Setup.{
  SetupRequest, failed, super_admin, done, user_created, password_hashed, handle_setup,
}

-- The row of the first account.
abbrev pub first_admin : SetupRequest → Text → UserDb → User
first_admin r h db = record {
  id = db.last_user + 1;
  username = r.username;
  password_hash = h;
  role = super_admin;
  display_name = r.display_name;
  email = r.email;
  token_version = 1;
}

abbrev pub with_admin : SetupRequest → Text → UserDb → UserDb
with_admin r h db = record db { users = first_admin r h db ∷ []; last_user = db.last_user + 1 }

-- The row before its profile is saved.
abbrev new_admin : SetupRequest → Text → UserDb → User
new_admin r h db = record (first_admin r h db) { display_name = []; email = [] }

abbrev with_new : SetupRequest → Text → UserDb → UserDb
with_new r h db = record db { users = new_admin r h db ∷ []; last_user = db.last_user + 1 }

create_user-empty :
    (r : SetupRequest) (h : Text) (db : UserDb)
    → db.users ≡ []
    → create_user r.username h super_admin [] [] db ≡ some (with_new r h db)
unfolding create_user
create_user-empty r h db empty = rw empty

update_profile-new :
    (r : SetupRequest) (h : Text) (db : UserDb)
    → update_profile (db.last_user + 1) r.display_name r.email (with_new r h db)
      ≡ some (with_admin r h db)
unfolding update_profile update_rows
update_profile-new r h db = ground arith

no_profile :
    (r : SetupRequest) (h : Text) (db : UserDb)
    → (not (r.display_name == []) || not (r.email == [])) ≡ false
    → with_new r h db ≡ with_admin r h db
no_profile r h db blank =
    let no_display : r.display_name ≡ [] = ground (arith, text_beq_iff r.display_name []) in
    let no_email : r.email ≡ [] = ground (arith, text_beq_iff r.email []) in
    rw (no_display, no_email)

user_created-new :
    (r : SetupRequest) (h : Text) (db : UserDb)
    → user_created r (db.last_user + 1) db (some (with_new r h db)) ≡ (with_admin r h db, done r)
user_created-new r h db = elim (Bool-cases (not (r.display_name == []) || not (r.email == []))) [
  | inl given ↦ rw given (rw (update_profile-new r h db))
  | inr blank ↦ rw blank (rw (no_profile r h db blank))
]

password_hashed-empty :
    (hash : Text → Option Text) (r : SetupRequest) (db : UserDb) (h : Text)
    → db.users ≡ []
    → password_hashed hash r db (some h) ≡ (with_admin r h db, done r)
password_hashed-empty hash r db h empty =
    rw (create_user-empty r h db empty) (user_created-new r h db)

pub record IsGood (hash : Text → Option Text) (r : SetupRequest) (h : Text) : Type 0 where
  pub named : (trim_runes r.username == []) ≡ false
  pub long : ltb (length r.password) 8 ≡ false
  pub hashed : hash r.password ≡ some h

no_users : (db : UserDb) → db.users ≡ [] → ltb 0 (length db.users) ≡ false
no_users db empty = rw empty

handle_setup-IsGood :
    (hash : Text → Option Text) (r : SetupRequest) (db : UserDb) (h : Text)
    → db.users ≡ []
    → IsGood hash r h
    → handle_setup hash (some r) db ≡ (with_admin r h db, done r)
unfolding handle_setup
handle_setup-IsGood hash r db h empty good =
    rw (no_users db empty, good.named, good.long, good.hashed)
      (password_hashed-empty hash r db h empty)

handle_setup-again :
    (hash : Text → Option Text) (body : Option SetupRequest) (r : SetupRequest) (db : UserDb)
    (h : Text)
    → handle_setup hash body (with_admin r h db) ≡ (with_admin r h db, failed 409)
unfolding handle_setup
handle_setup-again hash body r db h = refl

-- On a table without users, a setup with a name that is not blank and a password of eight bytes or more
-- makes one super admin, who can sign in with that password; and each further setup is refused. It is
-- for a hash that is made and then accepted, and a token that is made; without a login lockout.
pub handle_setup-handle_login :
    (hash : Text → Option Text) (check : Text → Text → Bool) (generate : Claims → Option Text)
    (as_string : Text → String) (now : ℕ) (ip : Text) (r : SetupRequest)
    (again : Option SetupRequest) (db : UserDb) (h token : Text)
    → db.users ≡ []
    → IsGood hash r h
    → check h r.password ≡ true
    → generate (claims_for (first_admin r h db)) ≡ some token
    → (handle_login check
          (some generate)
          as_string
          now
          none
          (record { within_rate = true; body = some (r.username, r.password); ip = ip })
          (handle_setup hash (some r) db).0
        ≡ (none, signed_in token (first_admin r h db)))
      × (handle_setup hash again (handle_setup hash (some r) db).0
          ≡ (with_admin r h db, failed 409))
unfolding handle_login get_user_by_username find_row
handle_setup-handle_login hash check generate as_string now ip r again db h token empty good right
      given =
    rw (handle_setup-IsGood hash r db h empty good)
      (rw (beq_self r.username) (rw right (rw given)), handle_setup-again hash again r db h)
