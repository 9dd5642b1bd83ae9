-- ===== src/Tests/TtlCache.antt =====
-- Runs of a cached function (src/decorators/cache.py).
use boilerplate_python_fasta.Prelude.{
  [], ◌∷◌, arith, List, ℕ, All, ◌≡◌, ◌+◌, ℕ_discrete, length, ◌≤◌, ap,
}
use boilerplate_python_fasta.TtlCache.{new_store}
use boilerplate_python_fasta.TtlCache.Runs.{run, ask, drop_one, cached_calls_lem, Op}

abbrev lookups : List (Op ℕ)
lookups = ask 1 1 4 ∷ ask 2 2 4 ∷ ask 3 3 5 ∷ ask 4 4 6 ∷ drop_one 5 ∷ ask 20 20 4 ∷ []

abbrev double : ℕ → ℕ
double n = n + n

cached_calls_lem_example :
    All (λ (a, v). v ≡ double a) (run ℕ_discrete (λ a. a) double lookups (new_store 2 10)).0
    × (length (run ℕ_discrete (λ a. a) double lookups (new_store 2 10)).1.entries ≤ 2)
cached_calls_lem_example =
    cached_calls_lem ℕ_discrete (λ a. a) double (λ a b e. ap double e) 2 10 (omega arith) lookups
