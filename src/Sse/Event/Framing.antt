-- ===== src/Sse/Event/Framing.antt =====
-- The lines of the frames of src/sse/event.py.
use boilerplate_python_fasta.Prelude.{
  refl, [], ◌∷◌, ℕ, List, ◌≢◌, All, ◌≡◌, ◌++◌, ◌∙◌, false, ap, sym, map, true, Bool-cases, ◌==◌,
  Bool, inl, arith, ◌||◌, inr, ◌&&◌,
}
use mathlib.Core.List.{append_assoc}
use boilerplate_python_fasta.Prelude.Text.{codes, is_digit}
use boilerplate_python_fasta.Prelude.Pattern.{all}
use boilerplate_python_fasta.Sse.Event.{join_lines, contains, is_break}
use boilerplate_python_fasta.Prelude.Text.{cons_head}
use boilerplate_python_fasta.Sse.Event.Lines.{lines}
use boilerplate_python_fasta.Sse.Event.Reader.{read_lines, read_line, Reader, drop_last}

-- Lines with their line breaks.
abbrev pub ended : List (List ℕ) → List ℕ
ended [] = []
ended (l ∷ ls) = l ++ 10 ∷ ended ls

abbrev pub IsLine : List ℕ → Type 0
IsLine l = contains is_break l ≡ false

pub or_false : (a b : Bool) → a || b ≡ false → (a ≡ false) × (b ≡ false)
or_false true b h = cc
or_false false b h = (refl, h)

and_false : (a b : Bool) → a ≡ false → a && b ≡ false
and_false true b h = cc
and_false false b h = refl

third :
    (a b : Bool) (x y z : List (List ℕ))
    → a ≡ false
    → b ≡ false
    → (elim a as (λ _. List (List ℕ)) [
      | true ↦ x
      | false ↦ elim b as (λ _. List (List ℕ)) [ true ↦ y | false ↦ z ]
    ])
      ≡ z
third true b x y z h k = cc
third false true x y z h k = cc
third false false x y z h k = refl

lines-newline : (rest : List ℕ) → lines (10 ∷ rest) ≡ [] ∷ lines rest
unfolding lines
lines-newline [] = refl
lines-newline (c ∷ cs) = refl

lines-character :
    (c d : ℕ) (cs : List ℕ) → is_break c ≡ false → lines (c ∷ d ∷ cs) ≡ cons_head c (lines (d ∷ cs))
unfolding lines
lines-character c d cs h =
    third (c == 13 && d == 10) (is_break c) ([] ∷ lines cs) ([] ∷ lines (d ∷ cs))
      (cons_head c (lines (d ∷ cs)))
      (and_false (c == 13) (d == 10) (or_false (c == 13) (c == 10) h).0) h

pub lines-line : (l rest : List ℕ) → IsLine l → lines (l ++ 10 ∷ rest) ≡ l ∷ lines rest
lines-line [] rest h = lines-newline rest
lines-line (c ∷ []) rest h =
    lines-character c 10 rest ((or_false (is_break c) false h).0)
    ∙ ap (cons_head c) (lines-newline rest)
lines-line (c ∷ d ∷ l) rest h =
    lines-character c d (l ++ 10 ∷ rest) ((or_false (is_break c) (contains is_break (d ∷ l)) h).0)
    ∙ ap (cons_head c)
        (lines-line (d ∷ l) rest ((or_false (is_break c) (contains is_break (d ∷ l)) h).1))

pub lines-ended :
    (ls : List (List ℕ)) (rest : List ℕ)
    → All IsLine ls
    → lines (ended ls ++ rest) ≡ ls ++ lines rest
lines-ended [] rest h = refl
lines-ended (l ∷ ls) rest h =
    rw append_assoc
      (lines-line l (ended ls ++ rest) h.0 ∙ ap (λ x. l ∷ x) (lines-ended ls rest h.1))

pub join_lines-ended :
    (l : List ℕ) (ls : List (List ℕ)) (rest : List ℕ)
    → join_lines (l ∷ ls) ++ 10 ∷ rest ≡ ended (l ∷ ls) ++ rest
join_lines-ended l [] rest = rw append_assoc refl
join_lines-ended l (m ∷ ls) rest =
    append_assoc l _ _
    ∙ ap (λ t. l ++ 10 ∷ t) (join_lines-ended m ls rest)
    ∙ sym (append_assoc l _ _)

pub read_lines-append :
    (xs ys : List (List ℕ)) (r : Reader)
    → read_lines (xs ++ ys) r ≡ (
      (read_lines ys (read_lines xs r).0).0,
      (read_lines xs r).1 ++ (read_lines ys (read_lines xs r).0).1,
    )
unfolding read_lines
read_lines-append [] ys r = refl
read_lines-append (x ∷ xs) ys r = rw (read_lines-append xs ys (read_line x r).0, append_assoc) refl

pub drop_last-append :
    {A : Type 0} → (xs ys : List A) → ys ≢ [] → drop_last (xs ++ ys) ≡ xs ++ drop_last ys
drop_last-append [] ys n = refl
drop_last-append (x ∷ []) [] n = absurd (n refl)
drop_last-append (x ∷ []) (y ∷ ys) n = refl
drop_last-append (x ∷ z ∷ xs) ys n = ap (λ t. x ∷ t) (drop_last-append (z ∷ xs) ys n)

-- What `_split_lines` makes has no line break in it.
IsLine-cons_head :
    (c : ℕ) (ls : List (List ℕ)) → is_break c ≡ false → All IsLine ls → All IsLine (cons_head c ls)
IsLine-cons_head c [] h k = (rw h refl, tt)
IsLine-cons_head c (l ∷ ls) h k = (rw h k.0, k.1)

one_of_three :
    (a b : Bool) (x y z : List (List ℕ))
    → All IsLine x
    → All IsLine y
    → (b ≡ false → All IsLine z)
    → All IsLine (elim a as (λ _. List (List ℕ)) [
      | true ↦ x
      | false ↦ elim b as (λ _. List (List ℕ)) [ true ↦ y | false ↦ z ]
    ])
one_of_three true b x y z h k m = h
one_of_three false true x y z h k m = k
one_of_three false false x y z h k m = m refl

pub IsLine-lines : (cs : List ℕ) → All IsLine (lines cs)
unfolding lines
IsLine-lines [] = (refl, tt)
IsLine-lines (c ∷ []) = elim (Bool-cases (is_break c)) [
  | inl e ↦ rw e (refl, (refl, tt))
  | inr e ↦ rw e (rw e refl, tt)
]
IsLine-lines (c ∷ d ∷ cs) =
    one_of_three (c == 13 && d == 10) (is_break c) _ _ _ (refl, IsLine-lines cs)
      (refl, IsLine-lines (d ∷ cs))
      (λ e. IsLine-cons_head c (lines (d ∷ cs)) e (IsLine-lines (d ∷ cs)))

pub append-All :
    {A : Type 0} → (P : A → Type 0) (xs ys : List A) → All P xs → All P ys → All P (xs ++ ys)
append-All P [] ys h k = k
append-All P (x ∷ xs) ys h k = (h.0, append-All P xs ys h.1 k)

-- A number has no line break in it.
pub digits-IsLine : (cs : List ℕ) → all is_digit cs ≡ true → IsLine cs
digits-IsLine [] h = refl
digits-IsLine (c ∷ cs) h = ground (arith, digits-IsLine cs)

pub data_lines-IsLine :
    (ls : List (List ℕ))
    → All IsLine ls
    → All IsLine (map (λ line. codes "data" ++ b':' ∷ b' ' ∷ line) ls)
data_lines-IsLine [] h = tt
data_lines-IsLine (l ∷ ls) h = (h.0, data_lines-IsLine ls h.1)
