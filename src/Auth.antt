-- ===== src/Auth.antt =====
-- `AuthService` of src/auth/service.py. A request is one transaction: it works on the rows as they
-- were committed, and what it leaves is committed only where the code calls `uow.commit`; where it
-- raises before, the rows are as they were. The encoded tokens, the password hash and the UUIDs
-- come from libraries, so they are arguments.
pub mod Store
pub mod Rows
pub mod Grants
pub mod Revocations
pub mod Rotation
use boilerplate_python_fasta.Prelude.{
  refl, [], ◌∷◌, none, some, zero, suc, Bool, String, List, ℕ, Option, false, true, if◌then◌else◌,
  not, ltb, ◌==◌, option_map,
}
use boilerplate_python_fasta.Auth.Store.{
  User, RefreshToken, RevocationReason, get_by_email, revoke_family, get_by_oauth, get_by_token,
  create_token, logout, reuse_detected, update_where, exists_by_email, get_user, revoke, rotated,
}

pub data AuthEvent : Type 0 where
  user_registered : (user_id : ℕ) → (email via : String) → AuthEvent
  user_logged_in : (user_id : ℕ) → (email method : String) → AuthEvent
  refresh_token_reuse_detected : (user_id family_id sessions_revoked : ℕ) → AuthEvent

-- What is committed: the tables and the events of the outbox, newest first.
pub record Database : Type 0 where
  pub users : List User
  pub tokens : List RefreshToken
  pub events : List AuthEvent

-- The exceptions that the service raises; `unique_violation` is the database's.
pub data AuthError : Type 0 where
  email_registered invalid_credentials account_inactive invalid_refresh_token : AuthError
  invalid_token_type token_revoked token_expired user_not_found unique_violation : AuthError

pub data Outcome : Type 0 where
  issued : (refresh_token : ℕ) → Outcome
  registered : (user_id : ℕ) → Outcome
  done : Outcome
  refused : AuthError → Outcome

-- What `create_refresh_token` and `uuid4` give a request.
pub record Fresh : Type 0 where
  pub token : ℕ
  pub expires_at : ℕ
  pub family_id : ℕ

abbrev pub publish : AuthEvent → Database → Database
publish e db = record db { events = e ∷ db.events }

-- `_issue_tokens`; `none` where the token is refused by its unique index.
unfoldable pub issue_tokens : Fresh → (user_id family_id : ℕ) → Database → Option Database
issue_tokens f user_id family_id db =
    elim (create_token f.token user_id f.expires_at family_id db.tokens) [
      | none ↦ none
      | some rows ↦ some (record db { tokens = rows })
    ]

-- A commit of what a step left, or the rows as they were where the step raised.
abbrev pub commit_issued : Fresh → Option Database → Database → Outcome × Database
commit_issued f none db = (refused unique_violation, db)
commit_issued f (some work) db = (issued f.token, work)

abbrev new_user : (id : ℕ) (email : String) → Option String → Bool → Option (String × String) → User
new_user id email hash verified oauth = record {
  id = id;
  email = email;
  hashed_password = hash;
  is_active = true;
  is_verified = verified;
  oauth = oauth;
}

unfoldable pub register : (id : ℕ) (email hash : String) → Database → Outcome × Database
register id email hash db =
    if exists_by_email email db.users then (refused email_registered, db) else (
      registered id,
      publish (user_registered id email "password")
          (record db { users = new_user id email (some hash) false none ∷ db.users }),
    )

abbrev pub login_checked : Fresh → Bool → User → String → Database → Outcome × Database
login_checked f verified u method db =
    if not verified
    then (refused invalid_credentials, db)
    else if not u.is_active
    then (refused account_inactive, db)
    else commit_issued f
        (option_map (publish (user_logged_in u.id u.email method))
          (issue_tokens f u.id f.family_id db))
        db

abbrev pub login_hashed :
    Fresh → (verify : String → Bool) → User → Option String → Database → Outcome × Database
login_hashed f verify u none db = (refused invalid_credentials, db)
login_hashed f verify u (some hash) db = login_checked f (verify hash) u "password" db

abbrev pub login_found :
    Fresh → (verify : String → Bool) → Option User → Database → Outcome × Database
login_found f verify none db = (refused invalid_credentials, db)
login_found f verify (some u) db = login_hashed f verify u u.hashed_password db

-- `verify` is `verify_password` on the password that was sent.
unfoldable pub login :
    Fresh → (verify : String → Bool) (email : String) → Database → Outcome × Database
login f verify email db = login_found f verify (get_by_email email db.users) db

-- `_handle_reuse`: it commits, and then refuses.
unfoldable pub handle_reuse : (now : ℕ) → RefreshToken → Database → Outcome × Database
handle_reuse now stored db =
    let (revoked, rows) = revoke_family now stored.family_id reuse_detected db.tokens in
    (
      refused token_revoked,
      publish (refresh_token_reuse_detected stored.user_id stored.family_id revoked)
          (record db { tokens = rows }),
    )

-- The end of `refresh`, on the working copy in which the token is revoked.
abbrev pub rotate_for :
    Fresh → Option User → RefreshToken → (work : Database) → Database → Outcome × Database
rotate_for f none stored work db = (refused user_not_found, db)
rotate_for f (some u) stored work db =
    if not u.is_active
    then (refused account_inactive, db)
    else commit_issued f (issue_tokens f u.id stored.family_id work) db

-- `refresh` of a token that is stored.
unfoldable pub rotate : Fresh → (now : ℕ) → RefreshToken → Database → Outcome × Database
rotate f now stored db =
    if stored.revoked
    then handle_reuse now stored db
    else if ltb stored.expires_at now
    then (refused token_expired, db)
    else rotate_for f (get_user stored.user_id db.users) stored
        (record db { tokens = (revoke now stored.token rotated db.tokens).1 }) db

-- What `decode_token` makes of a text: a refresh token, another one, or none.
pub data Decoded : Type 0 where
  refresh_type other_type undecodable : Decoded

abbrev pub refresh_found : Fresh → (now : ℕ) → Option RefreshToken → Database → Outcome × Database
refresh_found f now none db = (refused token_revoked, db)
refresh_found f now (some stored) db = rotate f now stored db

abbrev pub refresh_decoded : Fresh → Decoded → (now token : ℕ) → Database → Outcome × Database
refresh_decoded f undecodable now token db = (refused invalid_refresh_token, db)
refresh_decoded f other_type now token db = (refused invalid_token_type, db)
refresh_decoded f refresh_type now token db = refresh_found f now (get_by_token token db.tokens) db

unfoldable pub refresh :
    Fresh → (decode : ℕ → Decoded) (now token : ℕ) → Database → Outcome × Database
refresh f decode now token db = refresh_decoded f (decode token) now token db

abbrev pub logout_found : (now : ℕ) → Option RefreshToken → Database → Outcome × Database
logout_found now none db = (done, db)
logout_found now (some stored) db =
    (done, record db { tokens = (revoke_family now stored.family_id logout db.tokens).1 })

unfoldable pub logout_token : (now token : ℕ) → Database → Outcome × Database
logout_token now token db = logout_found now (get_by_token token db.tokens) db

-- The user that `oauth_login` goes on with, and whether it was created.
abbrev pub found_by_oauth :
    (id : ℕ) (provider sub email : String)
    → Option User
    → Option User
    → List User
    → (User × Bool) × List User
found_by_oauth id provider sub email (some u) _ users = ((u, false), users)
found_by_oauth id provider sub email none (some u) users =
    let linked = record u { oauth = some (provider, sub); is_verified = true } in
    (
      (linked, false),
      update_where (λ v. v.id == u.id)
          (λ v. record v { oauth = some (provider, sub); is_verified = true }) users,
    )
found_by_oauth id provider sub email none none users =
    let u = new_user id email none true (some (provider, sub)) in ((u, true), u ∷ users)

abbrev pub created_event : Bool → User → Database → Database
created_event true u db = publish (user_registered u.id u.email "oauth") db
created_event false u db = db

abbrev pub oauth_login_as : Fresh → (User × Bool) × List User → Database → Outcome × Database
oauth_login_as f ((u, created), users) db =
    if not u.is_active
    then (refused account_inactive, db)
    else commit_issued f
        (option_map (λ d. publish (user_logged_in u.id u.email "oauth") (created_event created u d))
          (issue_tokens f u.id f.family_id (record db { users = users })))
        db

unfoldable pub oauth_login :
    Fresh → (id : ℕ) (provider sub email : String) → Database → Outcome × Database
oauth_login f id provider sub email db =
    oauth_login_as f
      (found_by_oauth id provider sub email (get_by_oauth provider sub db.users)
        (get_by_email email db.users) db.users)
      db
