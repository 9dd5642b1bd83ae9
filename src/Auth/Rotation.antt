-- ===== src/Auth/Rotation.antt =====
-- Rotation of refresh tokens over any sequence of requests (src/auth/service.py).
use boilerplate_python_fasta.Prelude.{
  refl, [], ◌∷◌, none, some, ℕ, List, Option, ◌≡◌, subst, All, ◌≢◌, ◌≤◌, arith, if◌then◌else◌, ◌==◌,
  ◌+◌, ℕ_discrete, ap, true, ◌∙◌, Bool-cases, inl, inr,
}
use boilerplate_python_fasta.Auth.{
  Database, Fresh, Decoded, refresh, rotate, handle_reuse, refused, issued, token_revoked,
  refresh_type, ℕ, List, Option, create_token, true, reuse_detected, undecodable, other_type,
}
use boilerplate_python_fasta.Auth.Store.{RefreshToken, get_by_token, create_token, reuse_detected}
use boilerplate_python_fasta.Auth.Rows.{
  live_in, copies, live_in-create_token, copies-create_token, live_in-revoke_family, live_in_found,
}
use boilerplate_python_fasta.Auth.Revocations.{perform-Change}
use boilerplate_python_fasta.Auth.Grants.{
  Request, perform, run, draws, Change, shrunk, began, continued, Shrinks,
}

-- The family that a login draws from `uuid4` has no live token.
abbrev pub IsUnused : Option ℕ → List RefreshToken → Type 0
IsUnused none rows = Unit
IsUnused (some f) rows = live_in f rows ≡ 0

abbrev pub IsNewGrantRun : List Request → Database → Type 0
IsNewGrantRun [] db = Unit
IsNewGrantRun (r ∷ rest) db = IsUnused (draws r) db.tokens × IsNewGrantRun rest (perform r db)

-- A grant has at most one token that can be redeemed, and no token stands twice.
pub record IsRotating (rows : List RefreshToken) : Type 0 where
  pub single : (family_id : ℕ) → live_in family_id rows ≤ 1
  pub distinct : (token : ℕ) → copies token rows ≤ 1

IsRotating-Shrinks :
    (rows rows' : List RefreshToken) → Shrinks rows rows' → IsRotating rows → IsRotating rows'
IsRotating-Shrinks rows rows' s k = record {
  single = λ f. omega (arith, s.lives f, k.single f);
  distinct = λ t. omega (arith, s.holds t, k.distinct t);
}

one_more :
    (f g : ℕ) (rows rows' : List RefreshToken)
    → live_in g rows' ≡ (if f == g then 1 else 0) + live_in g rows
    → live_in f rows ≡ 0
    → live_in g rows ≤ 1
    → live_in g rows' ≤ 1
one_more f g rows rows' h n k = elim (ℕ_discrete f g) [
  | yes e ↦ ground (arith, ap (λ x. live_in x rows) e)
  | no ne ↦ ground arith
]

IsRotating-create_token :
    (token user_id expires_at f : ℕ) (rows rows' : List RefreshToken)
    → create_token token user_id expires_at f rows ≡ some rows'
    → live_in f rows ≡ 0
    → IsRotating rows
    → IsRotating rows'
IsRotating-create_token token user_id expires_at f rows rows' h n k = record {
  single = λ g.
      one_more f g rows rows' (live_in-create_token token user_id expires_at f g rows rows' h) n
        (k.single g);
  distinct = λ t. copies-create_token token user_id expires_at f t rows rows' h (k.distinct t);
}

IsRotating-Change :
    (r : Request) (rows rows' : List RefreshToken)
    → Change r rows rows'
    → IsUnused (draws r) rows
    → IsRotating rows
    → IsRotating rows'
IsRotating-Change r rows rows' (shrunk s) n k = IsRotating-Shrinks rows rows' s k
IsRotating-Change r rows rows' (began token user_id expires_at f d c) n k =
    IsRotating-create_token token user_id expires_at f rows rows' c
      (subst (λ o. IsUnused o rows) d n) k
IsRotating-Change r rows rows' (continued token user_id expires_at f mid l s c) n k =
    IsRotating-create_token token user_id expires_at f mid rows' c (omega (arith, l, k.single f))
      (IsRotating-Shrinks rows mid s k)

-- From a table in which this holds, as an empty one, and after any logins, refreshes, logouts and
-- sweeps one after the other, where the family that a login draws has no live token: each grant has
-- at most one token that can be redeemed, and no token stands twice.
pub run-IsRotating :
    (requests : List Request) (db : Database)
    → IsRotating db.tokens
    → IsNewGrantRun requests db
    → IsRotating (run requests db).tokens
unfolding run
run-IsRotating [] db k n = k
run-IsRotating (r ∷ rest) db k n =
    run-IsRotating rest (perform r db) (IsRotating-Change r _ _ (perform-Change r db) n.0 k) n.1

-- A request that does not begin the grant again.
abbrev pub IsElsewhere : ℕ → Request → Type 0
IsElsewhere f r = draws r ≢ some f

dead-Change :
    (f : ℕ) (r : Request) (rows rows' : List RefreshToken)
    → Change r rows rows'
    → IsElsewhere f r
    → live_in f rows ≡ 0
    → live_in f rows' ≡ 0
dead-Change f r rows rows' (shrunk s) n k = omega (arith, s.lives f)
dead-Change f r rows rows' (began token user_id expires_at g d c) n k = elim (ℕ_discrete g f) [
  | yes e ↦ absurd (n (d ∙ ap some e))
  | no ne ↦ ground (arith, live_in-create_token token user_id expires_at g f rows rows' c)
]
dead-Change f r rows rows' (continued token user_id expires_at g mid l s c) n k =
    elim (ℕ_discrete g f) [
      | yes e ↦ absurd (omega (arith, l, k, ap (λ x. live_in x rows) e))
      | no ne ↦
          ground (arith, live_in-create_token token user_id expires_at g f mid rows' c, s.lives f)
    ]

dead-run :
    (f : ℕ) (requests : List Request) (db : Database)
    → All (IsElsewhere f) requests
    → live_in f db.tokens ≡ 0
    → live_in f (run requests db).tokens ≡ 0
unfolding run
dead-run f [] db n k = k
dead-run f (r ∷ rest) db n k =
    dead-run f rest (perform r db) n.1 (dead-Change f r _ _ (perform-Change r db) n.0 k)

refresh-rotate :
    (f : Fresh) (decode : ℕ → Decoded) (now t : ℕ) (stored : RefreshToken) (db : Database)
    → decode t ≡ refresh_type
    → get_by_token t db.tokens ≡ some stored
    → refresh f decode now t db ≡ rotate f now stored db
unfolding refresh
refresh-rotate f decode now t stored db d h = rw (refresh, d, h) refl

rotate_revoked :
    (f : Fresh) (now : ℕ) (stored : RefreshToken) (db : Database)
    → stored.revoked ≡ true
    → rotate f now stored db ≡ handle_reuse now stored db
unfolding rotate
rotate_revoked f now stored db e = ground arith

replay_refused :
    (f : Fresh) (decode : ℕ → Decoded) (now t : ℕ) (stored : RefreshToken) (db : Database)
    → decode t ≡ refresh_type
    → get_by_token t db.tokens ≡ some stored
    → stored.revoked ≡ true
    → refresh f decode now t db ≡ handle_reuse now stored db
replay_refused f decode now t stored db d h e =
    refresh-rotate f decode now t stored db d h ∙ rotate_revoked f now stored db e

-- No token of a grant without live tokens is redeemed.
dead_refused :
    (f : Fresh) (decode : ℕ → Decoded) (now t x : ℕ) (stored : RefreshToken) (db : Database)
    (d : Decoded)
    → decode t ≡ d
    → get_by_token t db.tokens ≡ some stored
    → live_in stored.family_id db.tokens ≡ 0
    → (refresh f decode now t db).0 ≢ issued x
unfolding refresh handle_reuse
dead_refused f decode now t x stored db undecodable d h l = rw (refresh, d) (λ e. cc)
dead_refused f decode now t x stored db other_type d h l = rw (refresh, d) (λ e. cc)
dead_refused f decode now t x stored db refresh_type d h l = elim (Bool-cases stored.revoked) [
  | inl e ↦ rw (replay_refused f decode now t stored db d h e) (λ q. cc)
  | inr e ↦ absurd (omega (arith, l, live_in_found t stored db.tokens h e))
]

-- A refresh token that comes back after it was revoked is refused, and it ends its grant: whatever
-- requests follow, none of which begins a grant with the same family again, no token of the grant
-- can be redeemed, and a refresh with any of them issues nothing.
pub replay_ends_grant :
    (f f' : Fresh) (decode decode' : ℕ → Decoded) (now now' token t x : ℕ)
    (stored other : RefreshToken) (db : Database) (requests : List Request)
    → decode token ≡ refresh_type
    → get_by_token token db.tokens ≡ some stored
    → stored.revoked ≡ true
    → All (IsElsewhere stored.family_id) requests
    → get_by_token t (run requests (refresh f decode now token db).1).tokens ≡ some other
    → other.family_id ≡ stored.family_id
    → ((refresh f decode now token db).0 ≡ refused token_revoked)
      × (live_in stored.family_id (run requests (refresh f decode now token db).1).tokens ≡ 0)
      × ((refresh f' decode' now' t (run requests (refresh f decode now token db).1)).0 ≢ issued x)
unfolding handle_reuse
replay_ends_grant f f' decode decode' now now' token t x stored other db requests d h e away found
      same =
    let replay = replay_refused f decode now token stored db d h e in
    let ended = dead-run stored.family_id requests (refresh f decode now token db).1 away (
      ap (λ o. live_in stored.family_id o.1.tokens) replay
      ∙ live_in-revoke_family now stored.family_id reuse_detected db.tokens) in
    (
      ap (λ o. o.0) replay,
      ended,
      dead_refused f' decode' now' t x other _ (decode' t) refl found (
          ap (λ g. live_in g (run requests (refresh f decode now token db).1).tokens) same ∙ ended),
    )
