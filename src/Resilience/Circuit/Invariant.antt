-- ===== src/Resilience/Circuit/Invariant.antt =====
-- What holds of every breaker between two calls of its methods (src/resilience/circuit.py).
use boilerplate_python_fasta.Prelude.{
  ℕ, ◌-◌, ◌≤◌, ◌<◌, ◌≡◌, refl, Bool, false, List, [], ◌∷◌, ◌++◌, arith, length, count_true,
  length-append, length-drop, count_true-append, count_true-drop,
}
use boilerplate_python_fasta.Resilience.Config.{
  CircuitState, closed, open_state, half_open, CircuitBreakerConfig, IsUsable,
}
use boilerplate_python_fasta.Resilience.Circuit.{
  CircuitBreaker, CircuitCall, init, append_bounded, expire_open_period, acquire, reset,
  release_probe, trip, record_probe, record_outcome,
}

-- Closed: the failures remembered are below the threshold, and no success of a probe is counted.
-- Open: nothing is counted. Half-open: the probes fit their slots, and too few have succeeded.
abbrev Counts : CircuitState → CircuitBreaker → Type 0
Counts closed b = (count_true b.window < b.config.failure_threshold) × (b.probe_successes ≡ 0)
Counts open_state b = (b.window ≡ []) × (b.probes_in_flight ≡ 0) × (b.probe_successes ≡ 0)
Counts half_open b =
    (b.window ≡ [])
    × (b.probes_in_flight ≤ b.config.half_open_max_calls)
    × (b.probe_successes < b.config.success_threshold)

pub record IsValid (b : CircuitBreaker) : Type 0 where
  pub usable : IsUsable b.config
  pub remembered : length b.window ≤ b.config.window_size
  pub counts : Counts b.state b

pub init-IsValid : (c : CircuitBreakerConfig) → IsUsable c → IsValid (init c)
unfolding init
init-IsValid c u = record { usable = u; remembered = omega arith; counts = (omega arith, refl) }

pub length-append_bounded : (n : ℕ) (w : List Bool) (x : Bool) → length (append_bounded n w x) ≤ n
unfolding append_bounded
length-append_bounded n w x =
    omega (arith, length-drop (length (w ++ x ∷ []) - n) (w ++ x ∷ []), length-append w (x ∷ []))

-- A call belongs to this generation of the breaker or to an earlier one, and to an earlier one if
-- the circuit is open.
pub record IsBehind (call : CircuitCall) (b : CircuitBreaker) : Type 0 where
  pub not_later : call.generation ≤ b.generation
  pub earlier : b.state ≡ open_state → call.generation < b.generation

module _ (now : ℕ) (b : CircuitBreaker) (v : IsValid b) where
  pub expire-IsValid : IsValid (expire_open_period now b)
  unfolding expire_open_period
  expire-IsValid = ground arith

  pub trip-IsValid : IsValid (trip now b)
  unfolding trip
  trip-IsValid = ground arith

  pub record_probe-IsValid :
      (failed : Bool) → b.state ≡ half_open → IsValid (record_probe now failed b)
  unfolding record_probe
  record_probe-IsValid failed h = ground arith

pub release_probe-IsValid : (b : CircuitBreaker) → IsValid b → IsValid (release_probe b)
unfolding release_probe
release_probe-IsValid b v = ground arith

pub reset-IsValid : (b : CircuitBreaker) → IsValid b → IsValid (reset b)
unfolding reset
reset-IsValid b v = ground arith

pub acquire-IsValid :
    (now later : ℕ) (b : CircuitBreaker) → IsValid b → IsValid (acquire now later b).1
unfolding acquire
acquire-IsValid now later b v = ground arith

-- A success adds nothing to the failures that are remembered.
pub failures_after_success :
    (n : ℕ) (w : List Bool) → count_true (append_bounded n w false) ≤ count_true w
unfolding append_bounded
failures_after_success n w = omega (
  arith,
  count_true-drop (length (w ++ false ∷ []) - n) (w ++ false ∷ []),
  count_true-append w (false ∷ []),
)

pub record_outcome-IsValid :
    (now generation : ℕ) (failed : Bool) (b : CircuitBreaker)
    → IsValid b
    → (b.state ≡ open_state → generation < b.generation)
    → IsValid (record_outcome now generation failed b)
unfolding record_outcome
record_outcome-IsValid now generation failed b v h = ground (
  arith,
  length-append_bounded b.config.window_size b.window failed,
  failures_after_success b.config.window_size b.window,
)
