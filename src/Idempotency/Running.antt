-- ===== src/Idempotency/Running.antt =====
-- The list of the executions that are under way, of src/middleware/idempotency.py.
use mathlib.Core.Option.{some-injective}
use boilerplate_python_fasta.Idempotency.System.{Execution, without}
use boilerplate_python_fasta.Prelude.{
  refl, List, All, ℕ, ◌≢◌, ◌≡◌, ◌∷◌, get_elem?, some, suc, [], ◌∙◌, subst, zero, All-get_elem?, ap,
  sym,
}

abbrev pub IsOther : (key : List ℕ) → Execution → Type 0
IsOther key e = key ≢ e.full_key

abbrev pub Distinct : List Execution → Type 0
Distinct [] = Unit
Distinct (e ∷ es) = All (IsOther e.full_key) es × Distinct es

pub without-IsOther :
    (i : ℕ) (e : Execution) (es : List Execution)
    → Distinct es
    → get_elem? es i ≡ some e
    → All (IsOther e.full_key) (without i es)
without-IsOther i e [] d h = tt
without-IsOther zero e (x ∷ es) d h =
    subst (λ k. All (IsOther k.full_key) es) (some-injective _ _ h) d.0
without-IsOther (suc i) e (x ∷ es) d h =
    (λ q. All-get_elem? (IsOther x.full_key) es i e d.0 h (sym q), without-IsOther i e es d.1 h)

pub All-without :
    {A : Type 0} → (P : A → Type 0) (i : ℕ) (xs : List A) → All P xs → All P (without i xs)
All-without P i [] h = tt
All-without P zero (x ∷ xs) h = h.1
All-without P (suc i) (x ∷ xs) h = (h.0, All-without P i xs h.1)

pub Distinct-without : (i : ℕ) (es : List Execution) → Distinct es → Distinct (without i es)
Distinct-without i [] d = tt
Distinct-without zero (e ∷ es) d = d.1
Distinct-without (suc i) (e ∷ es) d =
    (All-without (IsOther e.full_key) i es d.0, Distinct-without i es d.1)

pub Distinct-same :
    (es : List Execution) (i j : ℕ) (e f : Execution)
    → Distinct es
    → get_elem? es i ≡ some e
    → get_elem? es j ≡ some f
    → e.full_key ≡ f.full_key
    → i ≡ j
Distinct-same [] i j e f d g k same = cc
Distinct-same (x ∷ es) zero zero e f d g k same = refl
Distinct-same (x ∷ es) zero (suc j) e f d g k same = absurd (
    All-get_elem? (IsOther x.full_key) es j f d.0 k
      (ap (λ (y : Execution). y.full_key) (some-injective _ _ g) ∙ same))
Distinct-same (x ∷ es) (suc i) zero e f d g k same = absurd (
    All-get_elem? (IsOther x.full_key) es i e d.0 g
      (ap (λ (y : Execution). y.full_key) (some-injective _ _ k) ∙ sym same))
Distinct-same (x ∷ es) (suc i) (suc j) e f d g k same =
    ap suc (Distinct-same es i j e f d.1 g k same)
