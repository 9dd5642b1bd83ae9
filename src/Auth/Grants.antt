-- ===== src/Auth/Grants.antt =====
-- Requests to src/auth/service.py, and what a login does to the table of tokens.
use boilerplate_python_fasta.Prelude.{
  refl, [], ◌∷◌, none, some, List, ◌≡◌, ℕ, String, Bool, ◌≤◌, arith, Option, ◌+◌, false, Bool-cases,
  subst, inr, inl, sym, if◌then◌else◌, not,
}
use boilerplate_python_fasta.Auth.{
  register, login, oauth_login, refresh, logout_token, issue_tokens, Database, Fresh, Decoded, List,
  logout, ℕ, create_token, String, RefreshToken, Bool, Option, User, get_by_email, false,
  login_checked, commit_issued, option_map, publish, user_logged_in, login_hashed, login_found,
  created_event, Outcome, oauth_login_as, not,
}
use boilerplate_python_fasta.Auth.Store.{
  revoke_all_for_user, delete_expired, logout, create_token, RefreshToken, User, get_by_email,
}
use boilerplate_python_fasta.Auth.Rows.{live_in, copies}
use mathlib.Core.Bool.{true}

-- A request, with what it draws and the clock, and the sweeps of the token table.
pub data Request : Type 0 where
  sign_up : (id : ℕ) (email hash : String) → Request
  sign_in : Fresh → (verify : String → Bool) → (email : String) → Request
  sign_in_with : Fresh → (id : ℕ) (provider sub email : String) → Request
  renew : Fresh → (decode : ℕ → Decoded) → (now token : ℕ) → Request
  sign_out : (now token : ℕ) → Request
  sign_out_everywhere : (now user_id : ℕ) → Request
  sweep : (now : ℕ) → Request

unfoldable pub perform : Request → Database → Database
perform (sign_up id email hash) db = (register id email hash db).1
perform (sign_in f verify email) db = (login f verify email db).1
perform (sign_in_with f id provider sub email) db = (oauth_login f id provider sub email db).1
perform (renew f decode now token) db = (refresh f decode now token db).1
perform (sign_out now token) db = (logout_token now token db).1
perform (sign_out_everywhere now user_id) db = record db {
  tokens = (revoke_all_for_user now user_id logout db.tokens).1;
}
perform (sweep now) db = record db { tokens = delete_expired now db.tokens }

unfoldable pub run : List Request → Database → Database
run [] db = db
run (r ∷ rest) db = run rest (perform r db)

-- The family that a request draws, if it is a login.
abbrev pub draws : Request → Option ℕ
draws (sign_in f verify email) = some f.family_id
draws (sign_in_with f id provider sub email) = some f.family_id
draws _ = none

-- Nothing more can be redeemed, and no token is there more often.
pub record Shrinks (rows rows' : List RefreshToken) : Type 0 where
  pub lives : (f : ℕ) → live_in f rows' ≤ live_in f rows
  pub holds : (t : ℕ) → copies t rows' ≤ copies t rows

-- What the rows become: at most what they were; or with the first token of a grant; or with the
-- next token of a grant that has lost one.
pub data Change (r : Request) (rows rows' : List RefreshToken) : Type 0 where
  shrunk : Shrinks rows rows' → Change r rows rows'
  began :
      (token user_id expires_at family_id : ℕ)
      → draws r ≡ some family_id
      → create_token token user_id expires_at family_id rows ≡ some rows'
      → Change r rows rows'
  continued :
      (token user_id expires_at family_id : ℕ) (mid : List RefreshToken)
      → live_in family_id mid + 1 ≤ live_in family_id rows
      → Shrinks rows mid
      → create_token token user_id expires_at family_id mid ≡ some rows'
      → Change r rows rows'

pub unchanged : (r : Request) (rows : List RefreshToken) → Change r rows rows
unchanged r rows = shrunk (record { lives = λ f. omega arith; holds = λ t. omega arith })

pub issue_tokens-rows :
    (f : Fresh) (user_id family_id : ℕ) (db work : Database)
    → issue_tokens f user_id family_id db ≡ some work
    → create_token f.token user_id f.expires_at family_id db.tokens ≡ some work.tokens
unfolding issue_tokens
issue_tokens-rows f user_id family_id db work h = ground arith

pub committed :
    (r : Request) (f : Fresh) (g : Database → Database)
    → ((d : Database) → (g d).tokens ≡ d.tokens)
    → (db : Database) (o : Option Database)
    → ((work : Database) → o ≡ some work → Change r db.tokens work.tokens)
    → Change r db.tokens (commit_issued f (option_map g o) db).1.tokens
committed r f g same db none c = unchanged r db.tokens
committed r f g same db (some work) c = subst (Change r db.tokens) (sym (same work)) (c work refl)

pub committed_plain :
    (r : Request) (f : Fresh) (db : Database) (o : Option Database)
    → ((work : Database) → o ≡ some work → Change r db.tokens work.tokens)
    → Change r db.tokens (commit_issued f o db).1.tokens
committed_plain r f db none c = unchanged r db.tokens
committed_plain r f db (some work) c = c work refl

login_checked-Change :
    (r : Request) (f : Fresh) (verified : Bool) (u : User) (method : String) (db : Database)
    → draws r ≡ some f.family_id
    → Change r db.tokens (login_checked f verified u method db).1.tokens
login_checked-Change r f false u method db d = unchanged r db.tokens
login_checked-Change r f true u method db d = elim (Bool-cases u.is_active) [
  | inr e ↦ rw e (unchanged r db.tokens)
  | inl e ↦ rw e (
      committed r f (publish (user_logged_in u.id u.email method)) (λ x. refl) db
        (issue_tokens f u.id f.family_id db)
        (λ work h.
          began f.token u.id f.expires_at f.family_id d
            (issue_tokens-rows f u.id f.family_id db work h)))
]

login_hashed-Change :
    (r : Request) (f : Fresh) (verify : String → Bool) (u : User) (o : Option String)
    (db : Database)
    → draws r ≡ some f.family_id
    → Change r db.tokens (login_hashed f verify u o db).1.tokens
login_hashed-Change r f verify u none db d = unchanged r db.tokens
login_hashed-Change r f verify u (some hash) db d =
    login_checked-Change r f (verify hash) u "password" db d

login_found-Change :
    (r : Request) (f : Fresh) (verify : String → Bool) (o : Option User) (db : Database)
    → draws r ≡ some f.family_id
    → Change r db.tokens (login_found f verify o db).1.tokens
login_found-Change r f verify none db d = unchanged r db.tokens
login_found-Change r f verify (some u) db d =
    login_hashed-Change r f verify u u.hashed_password db d

pub login-Change :
    (f : Fresh) (verify : String → Bool) (email : String) (db : Database)
    → Change (sign_in f verify email) db.tokens (login f verify email db).1.tokens
unfolding login
login-Change f verify email db = login_found-Change _ f verify (get_by_email email db.users) db refl

pub by_test-Change :
    (r : Request) (rows : List RefreshToken) (b : Bool) (x y : Outcome × Database)
    → (b ≡ true → Change r rows x.1.tokens)
    → (b ≡ false → Change r rows y.1.tokens)
    → Change r rows (if b then x else y).1.tokens
by_test-Change r rows true x y h k = h refl
by_test-Change r rows false x y h k = k refl

tokens-created_event :
    (created : Bool) (u : User) (db : Database) → (created_event created u db).tokens ≡ db.tokens
tokens-created_event true u db = refl
tokens-created_event false u db = refl

oauth_login_as-Change :
    (r : Request) (f : Fresh) (found : (User × Bool) × List User) (db : Database)
    → draws r ≡ some f.family_id
    → Change r db.tokens (oauth_login_as f found db).1.tokens
oauth_login_as-Change r f ((u, created), users) db d =
    by_test-Change r db.tokens (not u.is_active) _ _ (λ e. unchanged r db.tokens)
      (λ e.
        committed r f
          (λ x. publish (user_logged_in u.id u.email "oauth") (created_event created u x))
          (tokens-created_event created u) db
          (issue_tokens f u.id f.family_id (record db { users = users }))
          (λ work h.
            began f.token u.id f.expires_at f.family_id d
              (issue_tokens-rows f u.id f.family_id (record db { users = users }) work h)))

pub oauth_login-Change :
    (f : Fresh) (id : ℕ) (provider sub email : String) (db : Database)
    → Change
        (sign_in_with f id provider sub email)
        db.tokens
        (oauth_login f id provider sub email db).1.tokens
unfolding oauth_login
oauth_login-Change f id provider sub email db = oauth_login_as-Change _ f _ db refl
