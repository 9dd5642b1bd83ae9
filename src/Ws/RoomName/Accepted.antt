-- ===== src/Ws/RoomName/Accepted.antt =====
-- Exactly which names `validate_room_name` lets through (src/ws/rooms.py).
use boilerplate_python_fasta.Prelude.Pattern.{all, chomp, chomp-newline, all-newline}
use boilerplate_python_fasta.Prelude.{
  refl, [], ◌∷◌, zero, suc, ℕ, List, length, Bool, ◌≡◌, ◌++◌, true, false, ◌≤◌, ◌&&◌, arith, ◌↔◌,
  length-append,
}
use boilerplate_python_fasta.Ws.RoomName.{
  matches_pattern, match_rest, validate_room_name, is_name_character, accepted, is_alphanumeric,
}

-- What the documentation asks of a name, its length apart.
abbrev pub well_formed : List ℕ → Bool
well_formed [] = false
well_formed (c ∷ cs) = is_alphanumeric c && all is_name_character cs

match_rest-chomp :
    (n : ℕ) (cs : List ℕ) → length cs ≤ n → match_rest n cs ≡ all is_name_character (chomp cs)
unfolding match_rest
match_rest-chomp zero [] h = refl
match_rest-chomp (suc n) [] h = refl
match_rest-chomp zero (c ∷ cs) h = absurd (omega arith)
match_rest-chomp (suc zero) (c ∷ []) h = ground arith
match_rest-chomp (suc (suc n)) (c ∷ []) h = ground arith
match_rest-chomp (suc n) (c ∷ d ∷ cs) h = ground (arith, match_rest-chomp n (d ∷ cs))

matches_pattern-chomp : (cs : List ℕ) → length cs ≤ 64 → matches_pattern cs ≡ well_formed (chomp cs)
unfolding matches_pattern match_rest
matches_pattern-chomp [] h = refl
matches_pattern-chomp (c ∷ []) h = ground arith
matches_pattern-chomp (c ∷ d ∷ cs) h =
    unfold matches_pattern in ground (arith, match_rest-chomp 63 (d ∷ cs))

-- A name is accepted if and only if it has at most 64 characters and is well formed once a newline
-- at its end, if there is one, is taken off. So every well-formed name is accepted, and so is one
-- that is followed by a newline.
pub validate_room_name_iff :
    (name : List ℕ)
    → (validate_room_name name ≡ accepted name)
      ↔ ((length name ≤ 64) × (well_formed (chomp name) ≡ true))
unfolding validate_room_name
validate_room_name_iff [] = (λ h. cc, λ h. cc)
validate_room_name_iff (c ∷ cs) = (
  λ h. ground (arith, matches_pattern-chomp (c ∷ cs)),
  λ h. ground (arith, matches_pattern-chomp (c ∷ cs)),
)

newline_not_well_formed : (name : List ℕ) → well_formed (name ++ 10 ∷ []) ≡ false
newline_not_well_formed [] = refl
newline_not_well_formed (c ∷ cs) = ground (arith, all-newline is_name_character cs refl)

-- A well-formed name of at most 63 characters is accepted with a newline behind it, unchanged,
-- though the newline is none of the characters that a name may have.
pub newline_accepted :
    (name : List ℕ)
    → length name ≤ 63
    → well_formed name ≡ true
    → (validate_room_name (name ++ 10 ∷ []) ≡ accepted (name ++ 10 ∷ []))
      × (well_formed (name ++ 10 ∷ []) ≡ false)
newline_accepted name h w = (
  (validate_room_name_iff (name ++ 10 ∷ [])).1
      (omega (arith, length-append name (10 ∷ [])), rw chomp-newline w),
  newline_not_well_formed name,
)
