-- ===== src/Idempotency/Base/Framing.antt =====
-- What `request_fingerprint` of src/idempotency/base.py hashes tells requests apart.
use boilerplate_python_fasta.Prelude.{
  refl, List, ℕ, length, ◌∷◌, map, ◌≢◌, ◌≡◌, [], sym, ◌++◌, ◌⊎◌, arith, true, ◌∙◌, ap, inl, inr,
}
use boilerplate_python_fasta.Idempotency.Base.{
  framed, request_fingerprint, length, map, show, [], upper,
}
use boilerplate_python_fasta.Prelude.Pattern.{all}
use boilerplate_python_fasta.Prelude.Text.{
  show, is_digit, show-cons, read-show, codes_discrete, all-show, and_right, read_from,
}
use boilerplate_python_fasta.Resilience.Policy.{upper}

head_same : {A : Type 0} → {x y : A} {xs ys : List A} → x ∷ xs ≡ y ∷ ys → x ≡ y
head_same e = cc

tail_same : {A : Type 0} → {x y : A} {xs ys : List A} → x ∷ xs ≡ y ∷ ys → xs ≡ ys
tail_same e = cc

nil_not_cons : {A : Type 0} → {x : A} {xs : List A} → ¬ ([] ≡ x ∷ xs)
nil_not_cons e = cc

-- Digits before a zero are told from what comes after.
digits_before_zero :
    (ds es xs ys : List ℕ)
    → all is_digit ds ≡ true
    → all is_digit es ≡ true
    → ds ++ 0 ∷ xs ≡ es ++ 0 ∷ ys
    → (ds ≡ es) × (xs ≡ ys)
digits_before_zero [] [] xs ys h k e = (refl, cc)
digits_before_zero [] (b ∷ es) xs ys h k e = absurd (ground (arith, head_same e))
digits_before_zero (a ∷ ds) [] xs ys h k e = absurd (ground (arith, head_same e))
digits_before_zero (a ∷ ds) (b ∷ es) xs ys h k e =
    let (p, q) =
      digits_before_zero ds es xs ys (and_right (is_digit a) _ h) (and_right (is_digit b) _ k)
        (tail_same e) in
    (λ i. head_same e i ∷ p i, q)

append_same_length :
    (ds es xs ys : List ℕ) → length ds ≡ length es → ds ++ xs ≡ es ++ ys → (ds ≡ es) × (xs ≡ ys)
append_same_length [] [] xs ys l e = (refl, e)
append_same_length [] (b ∷ es) xs ys l e = absurd (omega (arith, l))
append_same_length (a ∷ ds) [] xs ys l e = absurd (omega (arith, l))
append_same_length (a ∷ ds) (b ∷ es) xs ys l e =
    let (p, q) = append_same_length ds es xs ys (omega (arith, l)) (tail_same e) in
    (λ i. head_same e i ∷ p i, q)

show_injective : (m n : ℕ) → show m ≡ show n → m ≡ n
show_injective m n e = sym (read-show m) ∙ ap (read_from 0) e ∙ read-show n

framed_once :
    (p q xs ys : List ℕ)
    → show (length p) ++ (0 ∷ (p ++ xs)) ≡ show (length q) ++ (0 ∷ (q ++ ys))
    → (p ≡ q) × (xs ≡ ys)
framed_once p q xs ys e =
    let (l, rest) =
      digits_before_zero (show (length p)) (show (length q)) (p ++ xs) (q ++ ys)
        (all-show (length p)) (all-show (length q)) e in
    append_same_length p q xs ys (show_injective (length p) (length q) l) rest

framed-ne-nil : (p : List ℕ) (parts : List (List ℕ)) → ¬ ([] ≡ framed (p ∷ parts))
unfolding framed
framed-ne-nil p parts e =
    let (d, ds, s) = show-cons (length p) in
    nil_not_cons (e ∙ ap (λ x. x ++ (0 ∷ (p ++ framed parts))) s)

-- Lists of parts that are hashed ds the same bytes are the same.
framed_injective : (ps qs : List (List ℕ)) → framed ps ≡ framed qs → ps ≡ qs
unfolding framed
framed_injective [] [] e = refl
framed_injective [] (q ∷ qs) e = absurd (framed-ne-nil q qs e)
framed_injective (p ∷ ps) [] e = absurd (framed-ne-nil p ps (sym e))
framed_injective (p ∷ ps) (q ∷ qs) e =
    let (same, rest) = framed_once p q (framed ps) (framed qs) e in
    λ i. same i ∷ framed_injective ps qs rest i

-- The parts of a request that its fingerprint is about.
abbrev pub parts : (method path query body content_type : List ℕ) → List (List ℕ)
parts method path query body content_type =
    map upper method ∷ path ∷ query ∷ content_type ∷ body ∷ []

abbrev pub IsCollision : (sha : List ℕ → List ℕ) → (x y : List ℕ) → Type 0
IsCollision sha x y = (x ≢ y) × (sha x ≡ sha y)

-- Two requests with one fingerprint have the same method up to case, path, query, content type and
-- body, or what was hashed for them is a collision of the hash.
pub request_fingerprint_told :
    (sha : List ℕ → List ℕ) (m m' p p' q q' b b' c c' : List ℕ)
    → request_fingerprint sha m p q b c ≡ request_fingerprint sha m' p' q' b' c'
    → (parts m p q b c ≡ parts m' p' q' b' c')
      ⊎ IsCollision sha (framed (parts m p q b c)) (framed (parts m' p' q' b' c'))
unfolding request_fingerprint
request_fingerprint_told sha m m' p p' q q' b b' c c' e =
    elim (codes_discrete (framed (parts m p q b c)) (framed (parts m' p' q' b' c'))) [
      | yes same ↦ inl (framed_injective _ _ same)
      | no n ↦ inr (n, e)
    ]
