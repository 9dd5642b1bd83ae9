-- ===== src/Auth/Store.antt =====
-- The rows that src/auth works on, with the queries of src/repositories/refresh_token.py and
-- src/repositories/user.py. A token's text and a UUID are numbers that stand for them.
use boilerplate_python_fasta.Prelude.{
  [], ◌∷◌, none, some, ℕ, Bool, String, true, List, Option, ◌==◌, ite, false, String_discrete, ◌&&◌,
  if◌then◌else◌, not, ◌+◌, ltb,
}

-- `RevocationReason`
pub data RevocationReason : Type 0 where
  rotated logout reuse_detected : RevocationReason

pub record RefreshToken : Type 0 where
  pub token : ℕ
  pub user_id : ℕ
  pub expires_at : ℕ
  pub family_id : ℕ
  pub revoked : Bool
  pub revoked_at : Option ℕ
  pub revoked_reason : Option RevocationReason

pub record User : Type 0 where
  pub id : ℕ
  pub email : String
  pub hashed_password : Option String
  pub is_active : Bool
  pub is_verified : Bool
  pub oauth : Option (String × String)

-- `scalar_one_or_none` on a column that is unique.
abbrev pub first_where : {A : Type 0} → (A → Bool) → List A → Option A
first_where p [] = none
first_where p (x ∷ xs) = if p x then some x else first_where p xs

-- How many rows a query finds.
abbrev pub count_where : {A : Type 0} → (A → Bool) → List A → ℕ
count_where p [] = 0
count_where p (x ∷ xs) = (if p x then 1 else 0) + count_where p xs

-- An update of the rows that a query finds.
abbrev pub update_where : {A : Type 0} → (A → Bool) → (A → A) → List A → List A
update_where p f [] = []
update_where p f (x ∷ xs) = (if p x then f x else x) ∷ update_where p f xs

unfoldable pub get_by_token : ℕ → List RefreshToken → Option RefreshToken
get_by_token token = first_where (λ r. r.token == token)

-- `create`; the unique index on the token refuses one that is there, which is `none`.
unfoldable pub create_token :
    (token user_id expires_at family_id : ℕ) → List RefreshToken → Option (List RefreshToken)
create_token token user_id expires_at family_id rows = elim (get_by_token token rows) [
  | some r ↦ none
  | none ↦ some (
      record {
        token = token;
        user_id = user_id;
        expires_at = expires_at;
        family_id = family_id;
        revoked = false;
        revoked_at = none;
        revoked_reason = none;
      }
      ∷ rows)
]

-- `_mark_revoked`
unfoldable pub mark_revoked : (now : ℕ) → RevocationReason → RefreshToken → RefreshToken
mark_revoked now reason r = record r {
  revoked = true;
  revoked_at = some now;
  revoked_reason = some reason;
}

unfoldable pub revoke :
    (now token : ℕ) → RevocationReason → List RefreshToken → Bool × List RefreshToken
revoke now token reason rows = elim (get_by_token token rows) [
  | none ↦ (false, rows)
  | some r ↦ (true, update_where (λ r. r.token == token) (mark_revoked now reason) rows)
]

abbrev pub is_live_in : ℕ → RefreshToken → Bool
is_live_in family_id r = r.family_id == family_id && not r.revoked

unfoldable pub revoke_family :
    (now family_id : ℕ) → RevocationReason → List RefreshToken → ℕ × List RefreshToken
revoke_family now family_id reason rows = (
  count_where (is_live_in family_id) rows,
  update_where (is_live_in family_id) (mark_revoked now reason) rows,
)

abbrev pub is_live_of : ℕ → RefreshToken → Bool
is_live_of user_id r = r.user_id == user_id && not r.revoked

unfoldable pub revoke_all_for_user :
    (now user_id : ℕ) → RevocationReason → List RefreshToken → ℕ × List RefreshToken
revoke_all_for_user now user_id reason rows = (
  count_where (is_live_of user_id) rows,
  update_where (is_live_of user_id) (mark_revoked now reason) rows,
)

-- `delete_expired`
unfoldable pub delete_expired : (now : ℕ) → List RefreshToken → List RefreshToken
delete_expired now [] = []
delete_expired now (r ∷ rows) =
    let rest = delete_expired now rows in if ltb r.expires_at now then rest else r ∷ rest

abbrev same_text : String → String → Bool
same_text a b = ite (String_discrete a b) true false

abbrev has_identity : String → String → Option (String × String) → Bool
has_identity provider sub none = false
has_identity provider sub (some (p, s)) = same_text p provider && same_text s sub

unfoldable pub get_user : ℕ → List User → Option User
get_user id = first_where (λ u. u.id == id)

unfoldable pub get_by_email : String → List User → Option User
get_by_email email = first_where (λ u. same_text u.email email)

unfoldable pub get_by_oauth : (provider sub : String) → List User → Option User
get_by_oauth provider sub = first_where (λ u. has_identity provider sub u.oauth)

unfoldable pub exists_by_email : String → List User → Bool
exists_by_email email users = elim (get_by_email email users) [ none ↦ false | some u ↦ true ]
