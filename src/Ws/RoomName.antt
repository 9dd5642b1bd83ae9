-- ===== src/Ws/RoomName.antt =====
-- `validate_room_name` of src/ws/rooms.py. A name is its code points. The pattern is
-- `^[a-z0-9][a-z0-9._-]{0,63}$` under `re.match`, whose `$` also matches before a final newline.
pub mod Accepted
use boilerplate_python_fasta.Prelude.Pattern.{at_end}
use boilerplate_python_fasta.Prelude.{
  zero, suc, [], ◌∷◌, arith, ℕ, List, if◌then◌else◌, Bool, ltb, leb, false, ◌||◌, true, ◌&&◌, ◌==◌,
  length, not,
}

pub data NameError : Type 0 where
  empty_name too_long bad_characters : NameError

pub data Checked : Type 0 where
  accepted : List ℕ → Checked
  invalid : NameError → Checked

abbrev pub max_room_name_length : ℕ
max_room_name_length = 64

abbrev pub is_alphanumeric : ℕ → Bool
is_alphanumeric c = (leb b'a' c && leb c b'z') || (leb b'0' c && leb c b'9')

abbrev pub is_name_character : ℕ → Bool
is_name_character c = is_alphanumeric c || c == b'.' || c == b'_' || c == b'-'

-- `[a-z0-9._-]{0,n}$`. A character of the class is no newline, so one reading suffices: at the
-- first character outside the class the rest has to be the end.
unfoldable pub match_rest : (n : ℕ) → List ℕ → Bool
unfolding at_end
match_rest zero cs = at_end cs
match_rest (suc n) [] = true
match_rest (suc n) (c ∷ cs) =
    let rest = match_rest n cs in if is_name_character c then rest else at_end (c ∷ cs)

unfoldable pub matches_pattern : List ℕ → Bool
unfolding match_rest
matches_pattern [] = false
matches_pattern (c ∷ cs) = if is_alphanumeric c then match_rest 63 cs else false

abbrev is_empty : List ℕ → Bool
is_empty [] = true
is_empty (c ∷ cs) = false

unfoldable pub validate_room_name : List ℕ → Checked
validate_room_name name =
    if is_empty name
    then invalid empty_name
    else if ltb max_room_name_length (length name)
    then invalid too_long
    else if not (matches_pattern name)
    then invalid bad_characters
    else accepted name
