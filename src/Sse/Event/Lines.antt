-- ===== src/Sse/Event/Lines.antt =====
-- `_split_lines` of src/sse/event.py against one pass over the text.
use boilerplate_python_fasta.Prelude.{
  refl, [], ◌∷◌, List, Bool, ℕ, if◌then◌else◌, ◌==◌, ◌≢◌, ◌≡◌, false, ◌++◌, true, ◌&&◌, arith,
  ℕ_discrete, ◌∙◌, ap, subst, sym,
}
use boilerplate_python_fasta.Sse.Event.{split_crlf, split_lines, flat_map, is_break}
use boilerplate_python_fasta.Prelude.Text.{split, cons_head}
use mathlib.Core.Bool.{true}

-- The lines of a text, which end at "\r\n", "\r" or "\n", read from left to right.
unfoldable pub lines : List ℕ → List (List ℕ)
lines [] = [] ∷ []
lines (c ∷ []) = if is_break c then [] ∷ [] ∷ [] else (c ∷ []) ∷ []
lines (c ∷ d ∷ cs) = elim (c == 13 && d == 10) [
  | true ↦ [] ∷ lines cs
  | false ↦ elim (is_break c) [ true ↦ [] ∷ lines (d ∷ cs) | false ↦ cons_head c (lines (d ∷ cs)) ]
]

cons_head-append :
    (c : ℕ) (xs ys : List (List ℕ)) → xs ≢ [] → cons_head c xs ++ ys ≡ cons_head c (xs ++ ys)
cons_head-append c [] ys n = absurd (n refl)
cons_head-append c (x ∷ xs) ys n = refl

pub cons_head-ne-nil : (c : ℕ) (xs : List (List ℕ)) → cons_head c xs ≢ []
cons_head-ne-nil c [] e = cc
cons_head-ne-nil c (x ∷ xs) e = cc

if-ne-nil : (b : Bool) (xs ys : List (List ℕ)) → xs ≢ [] → ys ≢ [] → (if b then xs else ys) ≢ []
if-ne-nil true xs ys n m = n
if-ne-nil false xs ys n m = m

cons-ne-nil : (x : List ℕ) (xs : List (List ℕ)) → (x ∷ xs) ≢ []
cons-ne-nil x xs e = cc

split-ne-nil : (s : ℕ) (cs : List ℕ) → split s cs ≢ []
unfolding split
split-ne-nil s [] = cons-ne-nil [] []
split-ne-nil s (c ∷ cs) =
    if-ne-nil (c == s) _ _ (cons-ne-nil [] (split s cs)) (cons_head-ne-nil c (split s cs))

-- A character that a splitter keeps goes in front of what it makes of the rest.
eq_refl : (s : ℕ) → s == s ≡ true
eq_refl s = ground arith

flat_map-split :
    (s c : ℕ) (ls : List (List ℕ))
    → (c == s ≡ false)
    → ls ≢ []
    → flat_map (split s) (cons_head c ls) ≡ cons_head c (flat_map (split s) ls)
unfolding split
flat_map-split s c [] h n = absurd (n refl)
flat_map-split s c (l ∷ ls) h n =
    rw h (cons_head-append c (split s l) (flat_map (split s) ls) (split-ne-nil s l))

flat_map-split_at :
    (s : ℕ) (ls : List (List ℕ))
    → ls ≢ []
    → flat_map (split s) (cons_head s ls) ≡ [] ∷ flat_map (split s) ls
unfolding split
flat_map-split_at s [] n = absurd (n refl)
flat_map-split_at s (l ∷ ls) n = rw (eq_refl s) refl

append-ne-nil : (xs ys : List (List ℕ)) → xs ≢ [] → (xs ++ ys) ≢ []
append-ne-nil [] ys n = absurd (n refl)
append-ne-nil (x ∷ xs) ys n = cons-ne-nil x (xs ++ ys)

flat_map-ne-nil :
    (f : List ℕ → List (List ℕ)) (ls : List (List ℕ))
    → ((l : List ℕ) → f l ≢ [])
    → ls ≢ []
    → flat_map f ls ≢ []
flat_map-ne-nil f [] h n = absurd (n refl)
flat_map-ne-nil f (l ∷ ls) h n = append-ne-nil (f l) (flat_map f ls) (h l)

abbrev pieces : List (List ℕ) → List (List ℕ)
pieces ls = flat_map (split 10) (flat_map (split 13) ls)

split-empty :
    (s : ℕ) (ls : List (List ℕ)) → flat_map (split s) ([] ∷ ls) ≡ [] ∷ flat_map (split s) ls
unfolding split
split-empty s ls = refl

at_cr : (ls : List (List ℕ)) → ls ≢ [] → pieces (cons_head 13 ls) ≡ [] ∷ pieces ls
at_cr ls n =
    ap (flat_map (split 10)) (flat_map-split_at 13 ls n) ∙ split-empty 10 (flat_map (split 13) ls)

at_lf : (ls : List (List ℕ)) → ls ≢ [] → pieces (cons_head 10 ls) ≡ [] ∷ pieces ls
at_lf ls n =
    ap (flat_map (split 10)) (flat_map-split 13 10 ls refl n)
    ∙ flat_map-split_at 10 (flat_map (split 13) ls)
        (flat_map-ne-nil (split 13) ls (split-ne-nil 13) n)

at_other :
    (c : ℕ) (ls : List (List ℕ))
    → (c == 13 ≡ false)
    → (c == 10 ≡ false)
    → ls ≢ []
    → pieces (cons_head c ls) ≡ cons_head c (pieces ls)
at_other c ls h k n =
    ap (flat_map (split 10)) (flat_map-split 13 c ls h n)
    ∙ flat_map-split 10 c (flat_map (split 13) ls) k
        (flat_map-ne-nil (split 13) ls (split-ne-nil 13) n)

-- One character in front of a text that is split at "\r\n" already.
one_character :
    (c : ℕ) (ls : List (List ℕ))
    → ls ≢ []
    → pieces (cons_head c ls) ≡ elim (is_break c) as (λ b. List (List ℕ)) [
      | true ↦ [] ∷ pieces ls
      | false ↦ cons_head c (pieces ls)
    ]
one_character c ls n = elim (ℕ_discrete c 13) [
  | yes e ↦
      subst
        (λ x. pieces (cons_head x ls) ≡ elim (is_break x) as (λ b. List (List ℕ)) [
          | true ↦ [] ∷ pieces ls
          | false ↦ cons_head x (pieces ls)
        ])
        (sym e) (at_cr ls n)
  | no ne ↦ elim (ℕ_discrete c 10) [
    | yes e ↦
        subst
          (λ x. pieces (cons_head x ls) ≡ elim (is_break x) as (λ b. List (List ℕ)) [
            | true ↦ [] ∷ pieces ls
            | false ↦ cons_head x (pieces ls)
          ])
          (sym e) (at_lf ls n)
    | no nf ↦
        let h : (c == 13 ≡ false) = ground arith in
        let k : (c == 10 ≡ false) = ground arith in at_other c ls h k n ∙ rw (h, k) refl
  ]
]

split_crlf-ne-nil : (cs : List ℕ) → split_crlf cs ≢ []
unfolding split_crlf
split_crlf-ne-nil [] = cons-ne-nil [] []
split_crlf-ne-nil (c ∷ []) = cons-ne-nil (c ∷ []) []
split_crlf-ne-nil (c ∷ d ∷ cs) =
    elim (c == 13 && d == 10)
      as (λ b.
        (elim b as (λ x. List (List ℕ)) [
          | true ↦ [] ∷ split_crlf cs
          | false ↦ cons_head c (split_crlf (d ∷ cs))
        ])
        ≢ []) [
          | true ↦ cons-ne-nil [] (split_crlf cs)
          | false ↦ cons_head-ne-nil c (split_crlf (d ∷ cs))
        ]

-- Any text whatever: the three splits one after the other are one pass.
pub split_lines-lines : (cs : List ℕ) → split_lines cs ≡ lines cs
unfolding split_lines split_crlf lines split
split_lines-lines [] = refl
split_lines-lines (c ∷ []) = one_character c ([] ∷ []) (cons-ne-nil [] []) ∙ ground arith
split_lines-lines (c ∷ d ∷ cs) =
    elim (c == 13 && d == 10)
      as (λ b.
        pieces (elim b as (λ x. List (List ℕ)) [
          | true ↦ [] ∷ split_crlf cs
          | false ↦ cons_head c (split_crlf (d ∷ cs))
        ])
        ≡ (elim b as (λ x. List (List ℕ)) [
          | true ↦ [] ∷ lines cs
          | false ↦ elim (is_break c) as (λ x. List (List ℕ)) [
            | true ↦ [] ∷ lines (d ∷ cs)
            | false ↦ cons_head c (lines (d ∷ cs))
          ]
        ])) [
          | true ↦ ap (λ ls. [] ∷ ls) (split_lines-lines cs)
          | false ↦
              one_character c (split_crlf (d ∷ cs)) (split_crlf-ne-nil (d ∷ cs))
              ∙ ap
                  (λ ls. elim (is_break c) as (λ x. List (List ℕ)) [
                    | true ↦ [] ∷ ls
                    | false ↦ cons_head c ls
                  ])
                  (split_lines-lines (d ∷ cs))
        ]

pub lines-ne-nil : (cs : List ℕ) → lines cs ≢ []
unfolding split_lines
lines-ne-nil cs =
    subst (λ ls. ls ≢ []) (split_lines-lines cs)
      (flat_map-ne-nil (split 10) _ (split-ne-nil 10)
        (flat_map-ne-nil (split 13) _ (split-ne-nil 13) (split_crlf-ne-nil cs)))
