-- ===== src/Resilience/Circuit/Slots.antt =====
-- The probe slots of a half-open breaker, and how a late answer frees one that it does not hold
-- (src/resilience/circuit.py).
pub mod Runs
use boilerplate_python_fasta.Prelude.{
  ℕ, zero, suc, ◌+◌, ◌≤◌, ◌<◌, ◌≡◌, ◌≢◌, ◌⊎◌, inl, inr, Bool, true, false, not, ◌&&◌, List, [], ◌∷◌,
  arith, refl, All, All-map, All-set, total, ◌==◌, if◌then◌else◌, All-get_elem?, get_elem?, set,
  total-set, Option, none, some,
}
use boilerplate_python_fasta.Resilience.Config.{
  CircuitState, closed, open_state, half_open, CircuitBreakerConfig, IsUsable,
}
use boilerplate_python_fasta.Resilience.Circuit.{
  CircuitBreaker, CircuitCall, Admission, admitted, refused, expire_open_period, acquire, reset,
  read_state, settle, release, record_outcome, release_probe,
}
use boilerplate_python_fasta.Resilience.Circuit.Invariant.{IsValid, IsBehind}
use boilerplate_python_fasta.Resilience.Circuit.System.{
  System, Action, take, answer, abandon, look, force, perform, run, IsSound, admit, perform-IsSound,
  update, start, start-IsSound,
}

-- A half-open breaker has every slot taken. A probe of an earlier generation, unsettled until now,
-- settles with any outcome: the next `acquire` admits a further probe of the current generation.
pub stale_probe_frees_slot :
    (now later : ℕ) (failed : Bool) (call : CircuitCall) (b : CircuitBreaker)
    → b.state ≡ half_open
    → b.probes_in_flight ≡ b.config.half_open_max_calls
    → 1 ≤ b.config.half_open_max_calls
    → call.settled ≡ false
    → call.probe ≡ true
    → call.generation ≢ b.generation
    → ((acquire now later b).0 ≡ refused 0)
      × ((acquire now later (settle now failed call b).1).0
          ≡ admitted (record { generation = b.generation; probe = true; settled = false }))
unfolding acquire settle record_outcome release_probe
stale_probe_frees_slot now later failed call b half full some_slot open_call probe stale =
    ground arith

-- 1 for a probe of the generation `g` that is not settled, and 0 for any other call.
unfoldable pub live : ℕ → CircuitCall → ℕ
live g c = if c.probe && not c.settled && (c.generation == g) then 1 else 0

abbrev pub live_probes : System → ℕ
live_probes s = total (live s.breaker.generation) s.calls

-- The counter of a half-open breaker against the number `n` of its live probes: it never exceeds
-- them, and it equals them if `exact`.
pub record Counted (exact : Bool) (n : ℕ) (b : CircuitBreaker) : Type 0 where
  pub half : b.state ≡ half_open → b.probes_in_flight ≤ n
  pub full : b.state ≡ half_open → exact ≡ true → n ≤ b.probes_in_flight
  pub other : b.state ≢ half_open → n ≡ 0

-- A call that is no late probe: a probe of an earlier generation that was not settled.
pub record IsPrompt (exact : Bool) (call : CircuitCall) (b : CircuitBreaker) : Type 0 where
  pub prompt :
      exact ≡ true → call.probe ≡ true → call.settled ≡ false → call.generation ≡ b.generation

pub later_generation :
    (g : ℕ) (calls : List CircuitCall)
    → All (λ c. c.generation ≤ g) calls
    → total (live (g + 1)) calls ≡ 0
unfolding live
later_generation g [] h = refl
later_generation g (c ∷ calls) h = ground (arith, later_generation g calls)

-- The number of live probes where a call is settled: it falls by what the call counts for, or a
-- new generation begins.
pub record Settles (n n' : ℕ) (call : CircuitCall) (b b' : CircuitBreaker) : Type 0 where
  pub same : b'.generation ≡ b.generation → n' + live b.generation call ≡ n
  pub fresh : b'.generation ≢ b.generation → n' ≡ 0

module _ (exact : Bool) (n n' : ℕ) (call : CircuitCall) (b : CircuitBreaker) (k : Counted exact n b)
    (v : IsValid b) (h : IsBehind call b) (p : IsPrompt exact call b) where
  pub Counted-settle :
      (now : ℕ) (failed : Bool)
      → Settles n n' call b (settle now failed call b).1
      → Counted exact n' (settle now failed call b).1
  unfolding settle record_outcome release_probe live
  Counted-settle now failed m = record {
    half = λ e. ground arith;
    full = λ e f. ground arith;
    other = λ e. ground arith;
  }

  pub Counted-release : Settles n n' call b (release call b).1 → Counted exact n' (release call b).1
  unfolding release release_probe live
  Counted-release m = record {
    half = λ e. ground arith;
    full = λ e f. ground arith;
    other = λ e. ground arith;
  }

module _ (exact : Bool) (n : ℕ) (b : CircuitBreaker) (k : Counted exact n b) where
  pub Counted-expire : (now : ℕ) → Counted exact n (expire_open_period now b)
  unfolding expire_open_period
  Counted-expire now = record {
    half = λ e. ground arith;
    full = λ e f. ground arith;
    other = λ e. ground arith;
  }

-- A settlement keeps the generation, or begins the next one.
pub generation_moves :
    (now : ℕ) (failed : Bool) (call : CircuitCall) (b : CircuitBreaker)
    → ((settle now failed call b).1.generation ≡ b.generation)
      ⊎ ((settle now failed call b).1.generation ≡ b.generation + 1)
unfolding settle record_outcome release_probe
generation_moves now failed call b = ground arith

pub settle_not_live :
    (g now : ℕ) (failed : Bool) (call : CircuitCall) (b : CircuitBreaker)
    → live g (settle now failed call b).0 ≡ 0
unfolding settle live
settle_not_live g now failed call b = ground arith

pub release_not_live :
    (g : ℕ) (call : CircuitCall) (b : CircuitBreaker) → live g (release call b).0 ≡ 0
unfolding release live
release_not_live g call b = ground arith

pub release_generation :
    (call : CircuitCall) (b : CircuitBreaker) → (release call b).1.generation ≡ b.generation
unfolding release release_probe
release_generation call b = ground arith

pub settle_keeps :
    (now : ℕ) (failed : Bool) (call : CircuitCall) (b : CircuitBreaker)
    → (settle now failed call b).0.generation ≡ call.generation
unfolding settle
settle_keeps now failed call b = ground arith

pub release_keeps :
    (call : CircuitCall) (b : CircuitBreaker) → (release call b).0.generation ≡ call.generation
unfolding release
release_keeps call b = ground arith

pub expire_generation :
    (now : ℕ) (b : CircuitBreaker) → (expire_open_period now b).generation ≡ b.generation
unfolding expire_open_period
expire_generation now b = ground arith

pub reset_generation : (b : CircuitBreaker) → (reset b).generation ≡ b.generation + 1
unfolding reset
reset_generation b = refl

pub Settles-set :
    (s : System) (i : ℕ) (call : CircuitCall) (r : CircuitCall × CircuitBreaker)
    → get_elem? s.calls i ≡ some call
    → IsSound s
    → r.0.generation ≡ call.generation
    → ((g : ℕ) → live g r.0 ≡ 0)
    → (r.1.generation ≡ s.breaker.generation) ⊎ (r.1.generation ≡ s.breaker.generation + 1)
    → Settles (live_probes s) (total (live r.1.generation) (set s.calls i r.0)) call s.breaker r.1
Settles-set s i call r e h g dead moves = record {
  same = λ p. rw p (
      omega (
        arith,
        total-set (live s.breaker.generation) s.calls i call r.0 e,
        dead s.breaker.generation,
      ));
  fresh = λ p. elim moves [
    | inl q ↦ absurd (p q)
    | inr q ↦ rw q (
        later_generation _ (set s.calls i r.0) (
          All-set _ s.calls i r.0 (All-map _ _ (λ c k. k.not_later) s.calls h.behind)
            (rw g (All-get_elem? _ s.calls i call h.behind e).not_later)))
  ];
}

abbrev pub admitted_live : ℕ → Admission → ℕ
admitted_live g (admitted c) = live g c
admitted_live g (refused t) = 0

pub total-admit :
    (g : ℕ) (calls : List CircuitCall) (a : Admission)
    → total (live g) (admit calls a) ≡ admitted_live g a + total (live g) calls
total-admit g calls (admitted c) = refl
total-admit g calls (refused t) = omega arith

pub Counted-acquire :
    (exact : Bool) (n now later : ℕ) (b : CircuitBreaker)
    → Counted exact n b
    → Counted exact (admitted_live b.generation (acquire now later b).0 + n) (acquire now later b).1
unfolding acquire live
Counted-acquire exact n now later b k = record {
  half = λ e. ground arith;
  full = λ e f. ground arith;
  other = λ e. ground arith;
}

acquire_generation :
    (now later : ℕ) (b : CircuitBreaker) → (acquire now later b).1.generation ≡ b.generation
unfolding acquire
acquire_generation now later b = ground arith

pub Counted-reset : (exact : Bool) (b : CircuitBreaker) → Counted exact 0 (reset b)
unfolding reset
Counted-reset exact b = record {
  half = λ e. ground arith;
  full = λ e f. ground arith;
  other = λ e. ground arith;
}
