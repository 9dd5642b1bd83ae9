-- ===== src/Prelude/Text.antt =====
-- Texts as code points, and Python's `str` and `int` on natural numbers.
use Prim.Native.Nat.{ℕ, zero, suc, ◌+◌, ◌-◌, ◌*◌, ◌/◌, ◌%◌, ◌<◌}
use Prim.Native.Char.{code}
use Prim.Native.String.{String}
use mathlib.Core.Path.{◌≡◌, refl, ap, ◌∙◌}
use mathlib.Core.Bool.{Bool, true, false, ◌&&◌, ◌||◌, not}
use native.Mathlib.Decide.{ℕ_discrete}
use mathlib.Core.List.{List, [], ◌∷◌, ◌++◌}
use native.Mathlib.Omega.{arith}
use boilerplate_python_fasta.Prelude.Tests.{◌==◌, leb, ltb, if◌then◌else◌}
use boilerplate_python_fasta.Prelude.Pattern.{all}

-- The code points of a text.
abbrev pub codes : String → List ℕ
codes String.[] = []
codes (String.◌∷◌ c s) = code c ∷ codes s

-- `[0-9]`
abbrev pub is_digit : ℕ → Bool
is_digit c = leb b'0' c && leb c b'9'

unfoldable pub digits : (fuel n : ℕ) → List ℕ
digits zero n = []
digits (suc fuel) n =
    let rest = digits fuel (n / 10) in
    if ltb n 10 then (48 + n) ∷ [] else rest ++ (48 + n % 10) ∷ []

-- `str(n)`
unfoldable pub show : ℕ → List ℕ
show n = digits (suc n) n

-- `int(text)` on a text of digits.
unfoldable pub read_from : ℕ → List ℕ → ℕ
read_from acc [] = acc
read_from acc (c ∷ cs) = read_from (acc * 10 + (c - 48)) cs

pub read_from-append :
    (acc : ℕ) (cs : List ℕ) (c : ℕ)
    → read_from acc (cs ++ c ∷ []) ≡ read_from acc cs * 10 + (c - 48)
unfolding read_from
read_from-append acc [] c = refl
read_from-append acc (d ∷ cs) c = read_from-append (acc * 10 + (d - 48)) cs c

read-digits : (fuel n : ℕ) → n < fuel → read_from 0 (digits fuel n) ≡ n
unfolding digits read_from
read-digits zero n h = absurd (omega arith)
read-digits (suc fuel) n h =
    ground
      (arith, read_from-append 0 (digits fuel (n / 10)) (48 + n % 10), read-digits fuel (n / 10))

pub read-show : (n : ℕ) → read_from 0 (show n) ≡ n
unfolding show
read-show n = read-digits (suc n) n (omega arith)

all-append :
    (p : ℕ → Bool) (cs ds : List ℕ) → all p cs ≡ true → all p ds ≡ true → all p (cs ++ ds) ≡ true
all-append p [] ds h k = k
all-append p (c ∷ cs) ds h k = ground (arith, all-append p cs ds)

all-digits : (fuel n : ℕ) → all is_digit (digits fuel n) ≡ true
unfolding digits
all-digits zero n = refl
all-digits (suc fuel) n = ground (
  arith,
  all-append is_digit (digits fuel (n / 10)) ((48 + n % 10) ∷ []),
  all-digits fuel (n / 10),
)

pub all-show : (n : ℕ) → all is_digit (show n) ≡ true
unfolding show
all-show n = all-digits (suc n) n

append-cons : (xs : List ℕ) (c : ℕ) → (d : ℕ) × (ds : List ℕ) × (xs ++ c ∷ [] ≡ d ∷ ds)
append-cons [] c = (c, [], refl)
append-cons (x ∷ xs) c = (x, xs ++ c ∷ [], refl)

one_of :
    (b : Bool) (x y : List ℕ)
    → ((d : ℕ) × (ds : List ℕ) × (x ≡ d ∷ ds))
    → ((d : ℕ) × (ds : List ℕ) × (y ≡ d ∷ ds))
    → (d : ℕ) × (ds : List ℕ) × ((if b then x else y) ≡ d ∷ ds)
one_of true x y h k = h
one_of false x y h k = k

-- A number has a first digit.
pub show-cons : (n : ℕ) → (d : ℕ) × (ds : List ℕ) × (show n ≡ d ∷ ds)
unfolding show digits
show-cons n =
    one_of (ltb n 10) _ _ (48 + n, [], refl) (append-cons (digits n (n / 10)) (48 + n % 10))

abbrev pub same_codes : List ℕ → List ℕ → Bool
same_codes [] [] = true
same_codes (x ∷ xs) (y ∷ ys) = x == y && same_codes xs ys
same_codes _ _ = false

unfoldable pub codes_discrete : Discrete (List ℕ)
codes_discrete = hlevel ℕ_discrete

-- `text.split(c)` for one character.
abbrev pub cons_head : ℕ → List (List ℕ) → List (List ℕ)
cons_head c [] = (c ∷ []) ∷ []
cons_head c (l ∷ ls) = (c ∷ l) ∷ ls

unfoldable pub split : ℕ → List ℕ → List (List ℕ)
split sep [] = [] ∷ []
split sep (c ∷ cs) = let rest = split sep cs in if c == sep then [] ∷ rest else cons_head c rest

-- A text without the separator is one piece, and one more piece stands in front of the others.
pub split_free :
    (sep : ℕ) (cs : List ℕ) → all (λ c. not (c == sep)) cs ≡ true → split sep cs ≡ cs ∷ []
unfolding split
split_free sep [] h = refl
split_free sep (c ∷ cs) h = ground (arith, split_free sep cs)

pub split_piece :
    (sep : ℕ) (cs rest : List ℕ)
    → all (λ c. not (c == sep)) cs ≡ true
    → split sep (cs ++ sep ∷ rest) ≡ cs ∷ split sep rest
unfolding split
split_piece sep [] rest h = ground arith
split_piece sep (c ∷ cs) rest h = ground (arith, split_piece sep cs rest)

-- `str.isspace` of one character.
unfoldable pub is_space : ℕ → Bool
is_space c =
    (leb 9 c && leb c 13)
    || (leb 28 c && leb c 32)
    || c == 133
    || c == 160
    || c == 5760
    || (leb 8192 c && leb c 8202)
    || c == 8232
    || c == 8233
    || c == 8239
    || c == 8287
    || c == 12288

abbrev pub drop_while : (ℕ → Bool) → List ℕ → List ℕ
drop_while p [] = []
drop_while p (c ∷ cs) = if p c then drop_while p cs else c ∷ cs

abbrev pub drop_last_while : (ℕ → Bool) → List ℕ → List ℕ
drop_last_while p [] = []
drop_last_while p (c ∷ cs) = elim (drop_last_while p cs) [
  | [] ↦ if p c then [] else c ∷ []
  | d ∷ ds ↦ c ∷ d ∷ ds
]

-- `text.strip()`, for the class of what is stripped.
unfoldable pub strip : (ℕ → Bool) → List ℕ → List ℕ
strip p cs = drop_last_while p (drop_while p cs)

pub and_right : (a b : Bool) → (a && b) ≡ true → b ≡ true
and_right true b h = h
and_right false b h = cc

pub and_left : (a b : Bool) → (a && b) ≡ true → a ≡ true
and_left true b h = refl
and_left false b h = cc

drop_while_free :
    (p : ℕ → Bool) (cs : List ℕ) → all (λ c. not (p c)) cs ≡ true → drop_while p cs ≡ cs
drop_while_free p [] h = refl
drop_while_free p (c ∷ cs) h = ground arith

drop_last_while_free :
    (p : ℕ → Bool) (cs : List ℕ) → all (λ c. not (p c)) cs ≡ true → drop_last_while p cs ≡ cs
drop_last_while_free p [] h = refl
drop_last_while_free p (c ∷ []) h = ground arith
drop_last_while_free p (c ∷ d ∷ cs) h =
    let rest : drop_last_while p (d ∷ cs) ≡ d ∷ cs =
      drop_last_while_free p (d ∷ cs) (and_right (not (p c)) _ h) in
    rw rest refl

-- A text with nothing to strip.
pub strip_free : (p : ℕ → Bool) (cs : List ℕ) → all (λ c. not (p c)) cs ≡ true → strip p cs ≡ cs
unfolding strip
strip_free p cs h = ap (drop_last_while p) (drop_while_free p cs h) ∙ drop_last_while_free p cs h

pub same_codes-true : (xs ys : List ℕ) → same_codes xs ys ≡ true → xs ≡ ys
same_codes-true [] [] h = refl
same_codes-true [] (y ∷ ys) h = cc
same_codes-true (x ∷ xs) [] h = cc
same_codes-true (x ∷ xs) (y ∷ ys) h = ground (arith, same_codes-true xs ys)

pub same_codes_self : (xs : List ℕ) → same_codes xs xs ≡ true
same_codes_self [] = refl
same_codes_self (x ∷ xs) = ground (arith, same_codes_self xs)
