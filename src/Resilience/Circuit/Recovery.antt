-- ===== src/Resilience/Circuit/Recovery.antt =====
-- How an open circuit closes again (src/resilience/circuit.py).
use boilerplate_python_fasta.Prelude.{
  ℕ, suc, ◌+◌, ◌≤◌, ◌<◌, ◌-◌, ◌≡◌, ◌∙◌, refl, Bool, true, false, [], arith, List, ◌∷◌, length, sym,
}
use boilerplate_python_fasta.Resilience.Config.{closed, open_state, half_open}
use boilerplate_python_fasta.Resilience.Circuit.{
  CircuitBreaker, Admission, admitted, refused, expire_open_period, acquire, settle, record_outcome,
  release_probe,
}
use boilerplate_python_fasta.Resilience.Circuit.Invariant.{IsValid}

-- What an attempt reads of the clock: where it acquires, twice, and where it settles.
pub record Times : Type 0 where
  pub acquired_at : ℕ
  pub refused_at : ℕ
  pub settled_at : ℕ

abbrev settle_admitted : ℕ → Bool → Admission × CircuitBreaker → CircuitBreaker
settle_admitted now failed (admitted call, b) = (settle now failed call b).1
settle_admitted now failed (refused t, b) = b

-- One attempt of the transport: it acquires, and settles what was admitted with its outcome.
unfoldable pub attempt : Times → (failed : Bool) → CircuitBreaker → CircuitBreaker
attempt t failed b = settle_admitted t.settled_at failed (acquire t.acquired_at t.refused_at b)

-- Attempts that succeed, each at its times.
unfoldable pub successes : List Times → CircuitBreaker → CircuitBreaker
successes [] b = b
successes (t ∷ rest) b = successes rest (attempt t false b)

-- Half-open, no probe in flight, and `n` successes to go.
record Awaits (n : ℕ) (b : CircuitBreaker) : Type 0 where
  state : b.state ≡ half_open
  idle : b.probes_in_flight ≡ 0
  slots : 1 ≤ b.config.half_open_max_calls
  missing : b.probe_successes + n ≡ b.config.success_threshold

Awaits-attempt :
    (t : Times) (n : ℕ) (b : CircuitBreaker)
    → Awaits (suc (suc n)) b
    → Awaits (suc n) (attempt t false b)
unfolding attempt acquire settle record_outcome release_probe
Awaits-attempt t n b a = ground arith

pub record IsClosed (b : CircuitBreaker) : Type 0 where
  pub state : b.state ≡ closed
  pub window : b.window ≡ []
  pub successes : b.probe_successes ≡ 0

last_success : (t : Times) (b : CircuitBreaker) → Awaits 1 b → IsClosed (attempt t false b)
unfolding attempt acquire settle record_outcome release_probe
last_success t b a = ground arith

closes_after :
    (t : Times) (rest : List Times) (b : CircuitBreaker)
    → Awaits (suc (length rest)) b
    → IsClosed (successes (t ∷ rest) b)
unfolding successes
closes_after t [] b a = last_success t b a
closes_after t (u ∷ rest) b a =
    closes_after u rest (attempt t false b) (Awaits-attempt t (length rest) b a)

still_waiting :
    (ts : List Times) (m : ℕ) (b : CircuitBreaker)
    → Awaits (suc (length ts + m)) b
    → Awaits (suc m) (successes ts b)
unfolding successes
still_waiting [] m b a = record {
  state = a.state;
  idle = a.idle;
  slots = a.slots;
  missing = omega arith;
}
still_waiting (t ∷ rest) m b a = still_waiting rest m (attempt t false b) (
    Awaits-attempt t (length rest + m) b
      (record { state = a.state; idle = a.idle; slots = a.slots; missing = omega arith }))

-- The open period of a circuit is over.
pub record IsDue (now : ℕ) (b : CircuitBreaker) : Type 0 where
  pub valid : IsValid b
  pub state : b.state ≡ open_state
  pub over : b.open_until ≤ now

Awaits-expire :
    (now n : ℕ) (b : CircuitBreaker)
    → IsDue now b
    → b.config.success_threshold ≡ suc n
    → Awaits (suc n) (expire_open_period now b)
unfolding expire_open_period
Awaits-expire now n b d e = ground arith

attempt-expire :
    (t : Times) (failed : Bool) (b : CircuitBreaker)
    → IsDue t.acquired_at b
    → attempt t failed b ≡ attempt t failed (expire_open_period t.acquired_at b)
unfolding attempt acquire expire_open_period
attempt-expire t failed b d = ground arith

successes-expire :
    (t : Times) (rest : List Times) (b : CircuitBreaker)
    → IsDue t.acquired_at b
    → successes (t ∷ rest) b ≡ successes (t ∷ rest) (expire_open_period t.acquired_at b)
unfolding successes
successes-expire t rest b d = rw (attempt-expire t false b d)

config-attempt :
    (t : Times) (failed : Bool) (b : CircuitBreaker) → (attempt t failed b).config ≡ b.config
unfolding attempt acquire expire_open_period settle record_outcome release_probe
config-attempt t failed b = ground arith

config-successes : (ts : List Times) (b : CircuitBreaker) → (successes ts b).config ≡ b.config
unfolding successes
config-successes [] b = refl
config-successes (t ∷ rest) b = config-successes rest (attempt t false b) ∙ config-attempt t false b

-- Once the open period is over where the first of them acquires, `success_threshold` attempts that
-- succeed one after the other close the circuit, with nothing counted, whatever the clock reads
-- from there on.
pub successes_close :
    (t : Times) (rest : List Times) (b : CircuitBreaker)
    → IsDue t.acquired_at b
    → length (t ∷ rest) ≡ b.config.success_threshold
    → IsClosed (successes (t ∷ rest) b)
successes_close t rest b d e =
    rw (successes-expire t rest b d)
      (closes_after t rest _ (Awaits-expire t.acquired_at (length rest) b d (sym e)))

failing_probe :
    (t : Times) (n : ℕ) (b : CircuitBreaker)
    → Awaits (suc n) b
    → ((attempt t true b).state ≡ open_state)
      × ((attempt t true b).open_until ≡ t.settled_at + b.config.reset_timeout)
unfolding attempt acquire settle record_outcome release_probe
failing_probe t n b a = ground arith

waits_after :
    (t : Times) (rest : List Times) (b : CircuitBreaker)
    → IsDue t.acquired_at b
    → length (t ∷ rest) < b.config.success_threshold
    → Awaits (suc (b.config.success_threshold - suc (length (t ∷ rest)))) (successes (t ∷ rest) b)
waits_after t rest b d few = rw (successes-expire t rest b d) (
    still_waiting (t ∷ rest) (b.config.success_threshold - suc (length (t ∷ rest))) _
      (Awaits-expire t.acquired_at _ b d (omega arith)))

-- With at least one success and fewer than `success_threshold` the circuit is half-open, and one
-- failing probe then opens it again for `reset_timeout` from where it settles.
failure_reopens :
    (t failing : Times) (rest : List Times) (b : CircuitBreaker)
    → IsDue t.acquired_at b
    → length (t ∷ rest) < b.config.success_threshold
    → ((successes (t ∷ rest) b).state ≡ half_open)
      × ((attempt failing true (successes (t ∷ rest) b)).state ≡ open_state)
      × ((attempt failing true (successes (t ∷ rest) b)).open_until
          ≡ failing.settled_at + b.config.reset_timeout)
failure_reopens t failing rest b d few =
    let w = waits_after t rest b d few in
    ground (
      arith,
      w.state,
      failing_probe failing _ (successes (t ∷ rest) b) w,
      config-successes (t ∷ rest) b,
    )
