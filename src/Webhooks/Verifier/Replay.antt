-- ===== src/Webhooks/Verifier/Replay.antt =====
-- No delivery is accepted twice, of src/webhooks/verifier.py with the guard of replay.py in memory.
use boilerplate_python_fasta.Prelude.{
  refl, ℕ, List, ◌∷◌, [], ◌≡◌, ◌≤◌, ◌+◌, ◌<◌, arith, dec_lt, subst, sym,
}
use boilerplate_python_fasta.Webhooks.Verifier.{VerifierConfig, ReplayGuard}
use boilerplate_python_fasta.Webhooks.Verifier.Claims.{IsSpent, later}
use boilerplate_python_fasta.Webhooks.Verifier.Calls.{
  key_of, Call, perform, run, IsAscending, accepts,
}
use boilerplate_python_fasta.Prelude.Lists.{total}
use boilerplate_python_fasta.Webhooks.Verifier.Once.{perform-Once}

run_spent :
    (mac : List ℕ → List ℕ → List ℕ) (sha : List ℕ → List ℕ) (config : VerifierConfig) (boot ts : ℕ)
    (body : List ℕ) (now : ℕ) (calls : List Call) (g : ReplayGuard)
    → IsAscending now calls
    → IsSpent (key_of sha config ts body) ts config.tolerance boot now g
    → total (accepts ts body) (run mac sha config boot calls g) ≡ 0
unfolding run
run_spent mac sha config boot ts body now [] g up s = refl
run_spent mac sha config boot ts body now (c ∷ calls) g (l, up) s =
    let o = perform-Once mac sha config boot ts body c g in
    let s' = later (key_of sha config ts body) ts config.tolerance boot now c.mono g l s in
    omega (
      arith,
      o.refuses s',
      run_spent mac sha config boot ts body c.mono calls (perform mac sha config boot c g).1 up
          (o.keeps s'),
    )

-- When the clock does not go back and claims live longer than both sides of the tolerance, the
-- calls of `verify` accept a timestamp with a body once at most, whatever their headers.
pub run_once :
    (mac : List ℕ → List ℕ → List ℕ) (sha : List ℕ → List ℕ) (config : VerifierConfig) (boot ts : ℕ)
    (body : List ℕ) (now : ℕ) (calls : List Call) (g : ReplayGuard)
    → IsAscending now calls
    → config.tolerance + config.tolerance < g.ttl
    → total (accepts ts body) (run mac sha config boot calls g) ≤ 1
unfolding run
run_once mac sha config boot ts body now [] g up w = ground arith
run_once mac sha config boot ts body now (c ∷ calls) g (l, up) w =
    let o = perform-Once mac sha config boot ts body c g in
    let r = perform mac sha config boot c g in
    elim (dec_lt (accepts ts body r.0) 1) [
      | yes z ↦ omega (
        arith,
        z,
        run_once mac sha config boot ts body c.mono calls r.1 up
            (subst (λ t. config.tolerance + config.tolerance < t) (sym o.same_ttl) w),
      )
      | no n ↦ omega (
        arith,
        n,
        o.at_most,
        run_spent mac sha config boot ts body c.mono calls r.1 up
            (o.spends w (omega (arith, n, o.at_most))),
      )
    ]
