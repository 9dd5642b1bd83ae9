-- ===== src/Auth/Rows.antt =====
-- What the queries of src/repositories/refresh_token.py do to the live tokens of a family.
use boilerplate_python_fasta.Prelude.{
  refl, [], ◌∷◌, none, some, Bool, ℕ, List, ◌≡◌, ◌≤◌, ◌==◌, if◌then◌else◌, false, arith, ◌+◌,
}
use boilerplate_python_fasta.Auth.Store.{
  RefreshToken, RevocationReason, mark_revoked, revoke_family, create_token, get_by_token,
  delete_expired, count_where, update_where, is_live_in,
}

-- How many tokens of a family can still be redeemed.
abbrev pub live_in : ℕ → List RefreshToken → ℕ
live_in family_id = count_where (is_live_in family_id)

-- How often a token stands in the table.
abbrev pub copies : ℕ → List RefreshToken → ℕ
copies token = count_where (λ r. r.token == token)

pub live_in-mark_revoked :
    (p : RefreshToken → Bool) (now f : ℕ) (reason : RevocationReason) (rows : List RefreshToken)
    → live_in f (update_where p (mark_revoked now reason) rows) ≤ live_in f rows
unfolding mark_revoked
live_in-mark_revoked p now f reason [] = omega arith
live_in-mark_revoked p now f reason (r ∷ rows) =
    ground (arith, live_in-mark_revoked p now f reason rows)

pub copies-mark_revoked :
    (p : RefreshToken → Bool) (now t : ℕ) (reason : RevocationReason) (rows : List RefreshToken)
    → copies t (update_where p (mark_revoked now reason) rows) ≡ copies t rows
unfolding mark_revoked
copies-mark_revoked p now t reason [] = refl
copies-mark_revoked p now t reason (r ∷ rows) =
    ground (arith, copies-mark_revoked p now t reason rows)

pub live_in-revoke_family :
    (now f : ℕ) (reason : RevocationReason) (rows : List RefreshToken)
    → live_in f (revoke_family now f reason rows).1 ≡ 0
unfolding revoke_family mark_revoked
live_in-revoke_family now f reason [] = refl
live_in-revoke_family now f reason (r ∷ rows) =
    ground (arith, live_in-revoke_family now f reason rows)

-- A token that is revoked by its text was live until then.
pub live_in-revoke_first :
    (now : ℕ) (reason : RevocationReason) (stored : RefreshToken) (rows : List RefreshToken)
    → get_by_token stored.token rows ≡ some stored
    → stored.revoked ≡ false
    → live_in stored.family_id
          (update_where (λ r. r.token == stored.token) (mark_revoked now reason) rows)
        + 1
      ≤ live_in stored.family_id rows
unfolding get_by_token mark_revoked
live_in-revoke_first now reason stored [] h e = cc
live_in-revoke_first now reason stored (r ∷ rows) h e = ground (
  arith,
  live_in-revoke_first now reason stored rows,
  live_in-mark_revoked (λ r. r.token == stored.token) now stored.family_id reason rows,
)

pub live_in-create_token :
    (token user_id expires_at f g : ℕ) (rows rows' : List RefreshToken)
    → create_token token user_id expires_at f rows ≡ some rows'
    → live_in g rows' ≡ (if f == g then 1 else 0) + live_in g rows
unfolding create_token
live_in-create_token token user_id expires_at f g rows rows' h = ground arith

copies_absent : (t : ℕ) (rows : List RefreshToken) → get_by_token t rows ≡ none → copies t rows ≡ 0
unfolding get_by_token
copies_absent t [] h = refl
copies_absent t (r ∷ rows) h = ground (arith, copies_absent t rows)

pub copies-create_token :
    (token user_id expires_at f t : ℕ) (rows rows' : List RefreshToken)
    → create_token token user_id expires_at f rows ≡ some rows'
    → copies t rows ≤ 1
    → copies t rows' ≤ 1
unfolding create_token
copies-create_token token user_id expires_at f t rows rows' h k =
    ground (arith, copies_absent token rows)

pub live_in-delete_expired :
    (now f : ℕ) (rows : List RefreshToken) → live_in f (delete_expired now rows) ≤ live_in f rows
unfolding delete_expired
live_in-delete_expired now f [] = omega arith
live_in-delete_expired now f (r ∷ rows) = ground (arith, live_in-delete_expired now f rows)

pub copies-delete_expired :
    (now t : ℕ) (rows : List RefreshToken) → copies t (delete_expired now rows) ≤ copies t rows
unfolding delete_expired
copies-delete_expired now t [] = omega arith
copies-delete_expired now t (r ∷ rows) = ground (arith, copies-delete_expired now t rows)

pub get_by_token_lem :
    (t : ℕ) (stored : RefreshToken) (rows : List RefreshToken)
    → get_by_token t rows ≡ some stored
    → stored.token ≡ t
unfolding get_by_token
get_by_token_lem t stored [] h = cc
get_by_token_lem t stored (r ∷ rows) h = ground (arith, get_by_token_lem t stored rows)

-- A token that is found and not revoked is one of the live ones of its family.
pub live_in_found :
    (t : ℕ) (stored : RefreshToken) (rows : List RefreshToken)
    → get_by_token t rows ≡ some stored
    → stored.revoked ≡ false
    → 1 ≤ live_in stored.family_id rows
unfolding get_by_token
live_in_found t stored [] h e = cc
live_in_found t stored (r ∷ rows) h e = ground (arith, live_in_found t stored rows)
