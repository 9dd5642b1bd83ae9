-- ===== src/Sse/Event.antt =====
-- `ServerSentEvent` of src/sse/event.py, as the code points that it encodes; `payload` is its `data`.
pub mod Lines
pub mod Reader
pub mod Framing
pub mod Fields
pub mod RoundTrip
use boilerplate_python_fasta.Prelude.{
  refl, [], ◌∷◌, none, some, zero, suc, String, List, Option, ℕ, ◌++◌, if◌then◌else◌, ◌==◌, Bool,
  ◌&&◌, false, true, ◌||◌, option_map, map,
}
use boilerplate_python_fasta.Prelude.Text.{codes, show, split, cons_head}

-- `value.split("\r\n")`
unfoldable pub split_crlf : List ℕ → List (List ℕ)
split_crlf [] = [] ∷ []
split_crlf (c ∷ []) = (c ∷ []) ∷ []
split_crlf (c ∷ d ∷ cs) = elim (c == 13 && d == 10) [
  | true ↦ [] ∷ split_crlf cs
  | false ↦ cons_head c (split_crlf (d ∷ cs))
]

abbrev pub flat_map : {A B : Type 0} → (A → List B) → List A → List B
flat_map f [] = []
flat_map f (x ∷ xs) = f x ++ flat_map f xs

-- `_split_lines`: by "\r\n", then by "\r", then by "\n".
unfoldable pub split_lines : List ℕ → List (List ℕ)
split_lines value = flat_map (split 10) (flat_map (split 13) (split_crlf value))

-- A value contains one of the terminators if it contains "\r" or "\n".
abbrev pub is_break : ℕ → Bool
is_break c = c == 13 || c == 10

abbrev pub contains : (ℕ → Bool) → List ℕ → Bool
contains p [] = false
contains p (c ∷ cs) = p c || contains p cs

pub record ServerSentEvent : Type 0 where
  pub payload : List ℕ
  pub event : Option (List ℕ)
  pub id : Option (List ℕ)
  pub retry : Option ℕ

-- The `ValueError` of `__post_init__`; a negative `retry` is no number here.
pub data EventError : Type 0 where
  empty_data break_in_event break_in_id nul_in_id break_in_comment : EventError

abbrev pub is_empty : List ℕ → Bool
is_empty [] = true
is_empty (c ∷ cs) = false

abbrev pub has : (ℕ → Bool) → Option (List ℕ) → Bool
has p none = false
has p (some cs) = contains p cs

-- `__post_init__`; `none` means that it returns.
unfoldable pub check_event : ServerSentEvent → Option EventError
check_event e =
    if is_empty e.payload
    then some empty_data
    else if has is_break e.event
    then some break_in_event
    else if has is_break e.id
    then some break_in_id
    else if has (λ c. c == 0) e.id
    then some nul_in_id
    else none

abbrev pub labelled : String → Option (List ℕ) → List (List ℕ)
labelled name none = []
labelled name (some value) = (codes name ++ b':' ∷ b' ' ∷ value) ∷ []

-- `"\n".join(lines)`
abbrev pub join_lines : List (List ℕ) → List ℕ
join_lines [] = []
join_lines (l ∷ []) = l
join_lines (l ∷ m ∷ ls) = l ++ 10 ∷ join_lines (m ∷ ls)

unfoldable pub fields : ServerSentEvent → List (List ℕ)
fields e =
    labelled "event" e.event
    ++ (labelled "id" e.id
        ++ (labelled "retry" (option_map show e.retry)
            ++ map (λ line. codes "data" ++ b':' ∷ b' ' ∷ line) (split_lines e.payload)))

-- `encode`, before UTF-8.
unfoldable pub encode : ServerSentEvent → List ℕ
encode e = join_lines (fields e) ++ 10 ∷ 10 ∷ []

unfoldable pub comment_frame : List ℕ → Option (List ℕ)
comment_frame text =
    if contains is_break text then none else some (b':' ∷ b' ' ∷ text ++ 10 ∷ 10 ∷ [])

unfoldable pub retry_frame : ℕ → List ℕ
retry_frame milliseconds = codes "retry" ++ b':' ∷ b' ' ∷ show milliseconds ++ 10 ∷ 10 ∷ []
