-- ===== src/Lock/Names.antt =====
-- Exactly which names `validate_lock_name` lets through (src/distributed_lock/base.py).
use boilerplate_python_fasta.Prelude.{refl, [], ◌∷◌, List, ℕ, ◌≡◌, true, ◌↔◌, length, ◌≤◌, arith}
use boilerplate_python_fasta.Prelude.Pattern.{all, chomp, match_star-chomp, match_plus, match_star}
use boilerplate_python_fasta.Lock.{validate_lock_name, List, ℕ, is_printable, true, length}

match_plus-chomp :
    (name : List ℕ)
    → (match_plus is_printable name ≡ true)
      ↔ ((1 ≤ length (chomp name)) × (all is_printable (chomp name) ≡ true))
unfolding match_plus match_star
match_plus-chomp [] = (λ h. cc, λ h. absurd (omega arith))
match_plus-chomp (c ∷ []) = ground arith
match_plus-chomp (c ∷ d ∷ cs) =
    unfold match_plus in ground (arith, match_star-chomp is_printable (d ∷ cs) refl)

-- A name is accepted if and only if it has at most 255 characters and, once a newline at its end,
-- if there is one, is taken off, is not empty and has only characters from `!` to `~`.
validate_lock_name_iff :
    (name : List ℕ)
    → (validate_lock_name name ≡ true)
      ↔ ((length name ≤ 255) × (1 ≤ length (chomp name)) × (all is_printable (chomp name) ≡ true))
unfolding validate_lock_name
validate_lock_name_iff [] = (λ h. cc, λ h. absurd (omega arith))
validate_lock_name_iff (c ∷ cs) =
    (λ h. ground (arith, match_plus-chomp (c ∷ cs)), λ h. ground (arith, match_plus-chomp (c ∷ cs)))
