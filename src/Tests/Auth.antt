-- ===== src/Tests/Auth.antt =====
-- Runs of the service of src/auth/service.py.
use Prim.Native.Nat.{ℕ}
use boilerplate_python_fasta.Auth.Store.{
  RefreshToken, User, get_by_token, rotated, reuse_detected, revoke_family, mark_revoked,
  exists_by_email, get_by_email,
}
use boilerplate_python_fasta.Auth.{
  Database, refresh, refresh_type, rotate, Fresh, handle_reuse, refused, token_revoked, issued,
  logout_token, register,
}
use boilerplate_python_fasta.Prelude.{
  refl, ℕ, List, true, some, [], ◌≡◌, false, ◌∷◌, arith, none, ◌≢◌,
}
use boilerplate_python_fasta.Auth.Rotation.{IsRotating, replay_ends_grant, run-IsRotating}
use boilerplate_python_fasta.Auth.Rows.{live_in}
use boilerplate_python_fasta.Auth.Grants.{sign_out, run, Request, sign_up, perform, sign_in, renew}

abbrev used_row : RefreshToken
used_row = record {
  token = 10;
  user_id = 1;
  expires_at = 100;
  family_id = 7;
  revoked = true;
  revoked_at = some 5;
  revoked_reason = some rotated;
}

abbrev next_row : RefreshToken
next_row = record {
  token = 11;
  user_id = 1;
  expires_at = 100;
  family_id = 7;
  revoked = false;
  revoked_at = none;
  revoked_reason = none;
}

abbrev account : User
account = record {
  id = 1;
  email = "a@b.c";
  hashed_password = some "hash";
  is_active = true;
  is_verified = false;
  oauth = none;
}

abbrev empty : Database
empty = record { users = []; tokens = []; events = [] }

abbrev rotated_once : Database
rotated_once = record { users = account ∷ []; tokens = next_row ∷ used_row ∷ []; events = [] }

abbrev drawn : ℕ → Fresh
drawn token = record { token = token; expires_at = 100; family_id = 7 }

abbrev session : List Request
session =
    sign_up 1 "a@b.c" "hash"
    ∷ sign_in (drawn 10) (λ h. true) "a@b.c"
    ∷ renew (drawn 11) (λ t. refresh_type) 5 10
    ∷ []

empty-IsRotating : IsRotating []
empty-IsRotating = record { single = λ f. omega arith; distinct = λ t. omega arith }

-- The used token comes back.
replayed : (refresh (drawn 12) (λ t. refresh_type) 6 10 rotated_once).0 ≡ refused token_revoked
unfolding refresh rotate handle_reuse get_by_token revoke_family
replayed = refl

nothing_live : live_in 7 (perform (sign_up 1 "a@b.c" "hash") empty).tokens ≡ 0
unfolding perform register exists_by_email get_by_email
nothing_live = refl

run-IsRotating_example : IsRotating (run session empty).tokens
run-IsRotating_example =
    run-IsRotating session empty empty-IsRotating (tt, (nothing_live, (tt, tt)))

abbrev after_replay : Database
after_replay = run (sign_out 8 11 ∷ []) (refresh (drawn 12) (λ t. refresh_type) 6 10 rotated_once).1

abbrev revoked_row : RefreshToken
revoked_row = record next_row {
  revoked = true;
  revoked_at = some 6;
  revoked_reason = some reuse_detected;
}

still_stored : get_by_token 11 after_replay.tokens ≡ some revoked_row
unfolding refresh rotate handle_reuse get_by_token revoke_family run perform logout_token
    mark_revoked
still_stored = refl

used_found : get_by_token 10 rotated_once.tokens ≡ some used_row
unfolding get_by_token
used_found = refl

replay_ends_grant_example :
    ((refresh (drawn 12) (λ t. refresh_type) 6 10 rotated_once).0 ≡ refused token_revoked)
    × (live_in 7 after_replay.tokens ≡ 0)
    × ((refresh (drawn 13) (λ t. refresh_type) 9 11 after_replay).0 ≢ issued 13)
replay_ends_grant_example =
    replay_ends_grant (drawn 12) (drawn 13) (λ t. refresh_type) (λ t. refresh_type) 6 9 10 11 13
      used_row revoked_row rotated_once (sign_out 8 11 ∷ []) refl used_found refl ((λ e. cc), tt)
      still_stored refl
