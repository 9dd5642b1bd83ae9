-- ===== src/Auth/Revocations.antt =====
-- What a refresh, a logout and a sweep of src/auth/service.py do to the table of tokens.
use boilerplate_python_fasta.Prelude.{
  refl, none, some, List, ◌≡◌, ℕ, String, Bool, ◌≤◌, arith, Option, ◌+◌, false, Bool-cases, subst,
  inr, inl, sym, ap, ltb, ◌==◌, ◌∙◌,
}
use boilerplate_python_fasta.Auth.{
  register, refresh, rotate, handle_reuse, logout_token, issue_tokens, Database, Fresh, Decoded,
  List, logout, ℕ, String, RefreshToken, Bool, get_by_token, Option, RevocationReason, User, false,
  refresh_decoded, update_where, refresh_found, reuse_detected, rotate_for, logout_found, ltb,
  undecodable, get_user, other_type, rotated, refresh_type,
}
use boilerplate_python_fasta.Auth.Store.{
  revoke, revoke_family, revoke_all_for_user, logout, RefreshToken, get_by_token, RevocationReason,
  User, is_live_in, is_live_of, reuse_detected, update_where, mark_revoked, get_user, rotated,
}
use boilerplate_python_fasta.Auth.Rows.{
  live_in, live_in-mark_revoked, copies-mark_revoked, live_in-delete_expired, get_by_token_lem,
  copies-delete_expired, live_in-revoke_first,
}
use mathlib.Core.Bool.{true}
use boilerplate_python_fasta.Auth.Grants.{
  Request, perform, Change, Shrinks, shrunk, continued, unchanged, committed_plain,
  issue_tokens-rows, by_test-Change, login-Change, oauth_login-Change, sign_up, sign_in,
  sign_in_with, renew, sign_out, sign_out_everywhere, sweep,
}

revoke-Shrinks :
    (now t : ℕ) (reason : RevocationReason) (rows : List RefreshToken)
    → Shrinks rows (revoke now t reason rows).1
unfolding revoke
revoke-Shrinks now t reason rows =
    elim (get_by_token t rows)
      as (λ o.
        Shrinks rows
          (elim o as (λ x. Bool × List RefreshToken) [
            | none ↦ (false, rows)
            | some r ↦ (true, update_where (λ r. r.token == t) (mark_revoked now reason) rows)
          ]).1) [
            | none ↦ record { lives = λ f. omega arith; holds = λ c. omega arith }
            | some r ↦ record {
              lives = λ f. live_in-mark_revoked _ now f reason rows;
              holds = λ c. omega (arith, copies-mark_revoked (λ r. r.token == t) now c reason rows);
            }
          ]

revoke_first :
    (now t : ℕ) (reason : RevocationReason) (stored : RefreshToken) (rows : List RefreshToken)
    → get_by_token t rows ≡ some stored
    → stored.revoked ≡ false
    → live_in stored.family_id (revoke now stored.token reason rows).1 + 1
      ≤ live_in stored.family_id rows
unfolding revoke
revoke_first now t reason stored rows h e =
    let found = ap (λ k. get_by_token k rows) (get_by_token_lem t stored rows h) ∙ h in
    rw (revoke, found) (live_in-revoke_first now reason stored rows found e)

revoke_family-Shrinks :
    (now t : ℕ) (reason : RevocationReason) (rows : List RefreshToken)
    → Shrinks rows (revoke_family now t reason rows).1
unfolding revoke_family
revoke_family-Shrinks now t reason rows = record {
  lives = λ f. live_in-mark_revoked _ now f reason rows;
  holds = λ c. omega (arith, copies-mark_revoked (is_live_in t) now c reason rows);
}

revoke_all_for_user-Shrinks :
    (now u : ℕ) (reason : RevocationReason) (rows : List RefreshToken)
    → Shrinks rows (revoke_all_for_user now u reason rows).1
unfolding revoke_all_for_user
revoke_all_for_user-Shrinks now u reason rows = record {
  lives = λ f. live_in-mark_revoked _ now f reason rows;
  holds = λ c. omega (arith, copies-mark_revoked (is_live_of u) now c reason rows);
}

rotate_for-Change :
    (r : Request) (f : Fresh) (o : Option User) (stored : RefreshToken) (work db : Database)
    → live_in stored.family_id work.tokens + 1 ≤ live_in stored.family_id db.tokens
    → Shrinks db.tokens work.tokens
    → Change r db.tokens (rotate_for f o stored work db).1.tokens
rotate_for-Change r f none stored work db l s = unchanged r db.tokens
rotate_for-Change r f (some u) stored work db l s = elim (Bool-cases u.is_active) [
  | inr e ↦ rw e (unchanged r db.tokens)
  | inl e ↦ rw e (
      committed_plain r f db (issue_tokens f u.id stored.family_id work) (λ done h.
        continued f.token u.id f.expires_at stored.family_id work.tokens l s
          (issue_tokens-rows f u.id stored.family_id work done h)))
]

rotate-Change :
    (r : Request) (f : Fresh) (now t : ℕ) (stored : RefreshToken) (db : Database)
    → get_by_token t db.tokens ≡ some stored
    → Change r db.tokens (rotate f now stored db).1.tokens
unfolding rotate handle_reuse
rotate-Change r f now t stored db h =
    by_test-Change r db.tokens stored.revoked _ _
      (λ e. shrunk (revoke_family-Shrinks now stored.family_id reuse_detected db.tokens))
      (λ e.
        by_test-Change r db.tokens (ltb stored.expires_at now) _ _ (λ x. unchanged r db.tokens)
          (λ x.
            rotate_for-Change r f (get_user stored.user_id db.users) stored
              (record db { tokens = (revoke now stored.token rotated db.tokens).1 }) db
              (revoke_first now t rotated stored db.tokens h e)
              (revoke-Shrinks now stored.token rotated db.tokens)))

refresh_found-Change :
    (r : Request) (f : Fresh) (now t : ℕ) (o : Option RefreshToken) (db : Database)
    → get_by_token t db.tokens ≡ o
    → Change r db.tokens (refresh_found f now o db).1.tokens
refresh_found-Change r f now t none db h = unchanged r db.tokens
refresh_found-Change r f now t (some stored) db h = rotate-Change r f now t stored db h

refresh_decoded-Change :
    (r : Request) (f : Fresh) (d : Decoded) (now t : ℕ) (db : Database)
    → Change r db.tokens (refresh_decoded f d now t db).1.tokens
refresh_decoded-Change r f undecodable now t db = unchanged r db.tokens
refresh_decoded-Change r f other_type now t db = unchanged r db.tokens
refresh_decoded-Change r f refresh_type now t db =
    refresh_found-Change r f now t (get_by_token t db.tokens) db refl

logout_found-Change :
    (r : Request) (now : ℕ) (o : Option RefreshToken) (db : Database)
    → Change r db.tokens (logout_found now o db).1.tokens
logout_found-Change r now none db = unchanged r db.tokens
logout_found-Change r now (some stored) db =
    shrunk (revoke_family-Shrinks now stored.family_id logout db.tokens)

tokens-register :
    (id : ℕ) (email hash : String) (db : Database)
    → (register id email hash db).1.tokens ≡ db.tokens
unfolding register
tokens-register id email hash db = ground arith

-- What every request does to the rows.
pub perform-Change : (r : Request) (db : Database) → Change r db.tokens (perform r db).tokens
unfolding perform refresh logout_token
perform-Change (sign_up id email hash) db =
    subst (Change _ db.tokens) (sym (tokens-register id email hash db)) (unchanged _ db.tokens)
perform-Change (sign_in f verify email) db = login-Change f verify email db
perform-Change (sign_in_with f id provider sub email) db =
    oauth_login-Change f id provider sub email db
perform-Change (renew f decode now token) db =
    refresh_decoded-Change _ f (decode token) now token db
perform-Change (sign_out now token) db = logout_found-Change _ now (get_by_token token db.tokens) db
perform-Change (sign_out_everywhere now user_id) db =
    shrunk (revoke_all_for_user-Shrinks now user_id logout db.tokens)
perform-Change (sweep now) db = shrunk (record {
  lives = λ f. live_in-delete_expired now f db.tokens;
  holds = λ t. copies-delete_expired now t db.tokens;
})
