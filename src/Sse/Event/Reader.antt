-- ===== src/Sse/Event/Reader.antt =====
-- How a browser's `EventSource` reads a stream, by the HTML standard: the independent description
-- that the frames of src/sse/event.py are held against.
use boilerplate_python_fasta.Prelude.{
  [], ◌∷◌, some, List, ℕ, if◌then◌else◌, Option, ◌==◌, ◌++◌, ◌&&◌,
}
use boilerplate_python_fasta.Prelude.Text.{codes, same_codes, read_from, is_digit}
use boilerplate_python_fasta.Prelude.Pattern.{all}
use boilerplate_python_fasta.Sse.Event.Lines.{lines}
use boilerplate_python_fasta.Sse.Event.{is_empty, contains}

pub record Message : Type 0 where
  pub type : List ℕ
  pub payload : List ℕ
  pub last_event_id : List ℕ

-- The buffers of the reader, and the reconnection time.
pub record Reader : Type 0 where
  pub payload : List ℕ
  pub event : List ℕ
  pub last_event_id : List ℕ
  pub retry : Option ℕ

abbrev pub without_space : List ℕ → List ℕ
without_space [] = []
without_space (c ∷ cs) = if c == b' ' then cs else c ∷ cs

-- A field name, and what follows the first colon less one space.
abbrev pub partition : List ℕ → List ℕ × List ℕ
partition [] = ([], [])
partition (c ∷ cs) =
    let rest = partition cs in if c == b':' then ([], without_space cs) else (c ∷ rest.0, rest.1)

unfoldable pub set_field : (name value : List ℕ) → Reader → Reader
set_field name value r =
    if same_codes name (codes "event")
    then record r { event = value }
    else if same_codes name (codes "data")
    then record r { payload = r.payload ++ (value ++ 10 ∷ []) }
    else if same_codes name (codes "id")
    then (if contains (λ c. c == 0) value then r else record r { last_event_id = value })
    else if same_codes name (codes "retry") && all is_digit value
    then record r { retry = some (read_from 0 value) }
    else r

-- Without the last character.
abbrev pub drop_last : {A : Type 0} → List A → List A
drop_last [] = []
drop_last (x ∷ []) = []
drop_last (x ∷ y ∷ ys) = x ∷ drop_last (y ∷ ys)

abbrev pub type_of : List ℕ → List ℕ
type_of [] = codes "message"
type_of (c ∷ cs) = c ∷ cs

-- The end of a frame; without data there is no message.
unfoldable pub dispatch : Reader → Reader × List Message
dispatch r =
    let clean = record r { payload = []; event = [] } in
    if is_empty r.payload then (clean, []) else (
      clean,
      record {
        type = type_of r.event;
        payload = drop_last r.payload;
        last_event_id = r.last_event_id;
      }
          ∷ [],
    )

-- One line: the end of a frame, a comment or a field.
unfoldable pub read_line : List ℕ → Reader → Reader × List Message
read_line [] r = dispatch r
read_line (c ∷ cs) r =
    if c == b':' then (r, []) else (set_field (partition (c ∷ cs)).0 (partition (c ∷ cs)).1 r, [])

unfoldable pub read_lines : List (List ℕ) → Reader → Reader × List Message
read_lines [] r = (r, [])
read_lines (l ∷ ls) r =
    let (r', sent) = read_line l r in let (r'', more) = read_lines ls r' in (r'', sent ++ more)

-- A text; what follows the last line break is no line yet.
unfoldable pub read : List ℕ → Reader → Reader × List Message
read text r = read_lines (drop_last (lines text)) r
