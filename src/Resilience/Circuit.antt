-- ===== src/Resilience/Circuit.antt =====
-- src/resilience/circuit.py: the breaker of one origin. A method takes the readings of the clock
-- that it makes, in order, and returns the breaker after it. Logging is left out.
pub mod Invariant
pub mod System
pub mod Behaviour
pub mod Recovery
pub mod Slots
use boilerplate_python_fasta.Prelude.{
  ℕ, ◌+◌, ◌-◌, ◌≤◌, ◌<◌, ◌≡◌, Bool, true, false, ◌&&◌, List, [], ◌∷◌, ◌++◌, Option, none, some,
  arith, ltb, leb, ◌==◌, if◌then◌else◌, length, drop, count_true,
}
use boilerplate_python_fasta.Resilience.Config.{
  CircuitState, closed, open_state, half_open, CircuitBreakerConfig,
}

pub record CircuitBreaker : Type 0 where
  pub config : CircuitBreakerConfig
  pub state : CircuitState
  pub window : List Bool
  pub open_until : ℕ
  pub generation : ℕ
  pub probes_in_flight : ℕ
  pub probe_successes : ℕ

-- `CircuitCall`: the breaker itself is passed beside it.
pub record CircuitCall : Type 0 where
  pub generation : ℕ
  pub probe : Bool
  pub settled : Bool

-- What `acquire` does: it admits a call, or raises `CircuitOpenError` with this `retry_after`.
pub data Admission : Type 0 where
  admitted : CircuitCall → Admission
  refused : ℕ → Admission

-- `CircuitBreaker.__init__`
unfoldable pub init : CircuitBreakerConfig → CircuitBreaker
init config = record {
  config = config;
  state = closed;
  window = [];
  open_until = 0;
  generation = 0;
  probes_in_flight = 0;
  probe_successes = 0;
}

abbrev pub failures_in_window : CircuitBreaker → ℕ
failures_in_window b = count_true b.window

-- `deque(maxlen=n).append(x)`: what does not fit is dropped at the left end.
unfoldable pub append_bounded : ℕ → List Bool → Bool → List Bool
append_bounded n w x = let w' = w ++ x ∷ [] in drop (length w' - n) w'

-- the test of `_expire_open_period`, by the state
abbrev pub is_open : CircuitState → Bool
is_open open_state = true
is_open _ = false

abbrev pub is_half_open : CircuitState → Bool
is_half_open half_open = true
is_half_open _ = false

unfoldable pub expire_open_period : ℕ → CircuitBreaker → CircuitBreaker
expire_open_period now b =
    if is_open b.state && leb b.open_until now
    then record b { state = half_open; probes_in_flight = 0; probe_successes = 0 }
    else b

-- `state`, the property: reading it may move the breaker to half-open.
unfoldable pub read_state : ℕ → CircuitBreaker → CircuitState × CircuitBreaker
unfolding expire_open_period
read_state now b = let b' = expire_open_period now b in (b'.state, b')

-- `acquire`; `later` is the second reading of the clock, in the message of a refusal. The
-- subtraction stops at 0, as `_reject` does by `max(0.0, retry_after)`.
unfoldable pub acquire : (now later : ℕ) → CircuitBreaker → Admission × CircuitBreaker
unfolding expire_open_period
acquire now later b =
    let b' = expire_open_period now b in
    if is_open b'.state
    then (refused (b'.open_until - later), b')
    else if is_half_open b'.state && leb b'.config.half_open_max_calls b'.probes_in_flight
    then (refused 0, b')
    else (
      admitted
          (record { generation = b'.generation; probe = is_half_open b'.state; settled = false }),
      if is_half_open b'.state
          then record b' { probes_in_flight = b'.probes_in_flight + 1 }
          else b',
    )

unfoldable pub reset : CircuitBreaker → CircuitBreaker
reset b = record b {
  state = closed;
  window = [];
  probes_in_flight = 0;
  probe_successes = 0;
  generation = b.generation + 1;
}

unfoldable pub release_probe : CircuitBreaker → CircuitBreaker
release_probe b = record b { probes_in_flight = b.probes_in_flight - 1 }

-- `_open`
unfoldable pub trip : ℕ → CircuitBreaker → CircuitBreaker
trip now b = record b {
  state = open_state;
  open_until = now + b.config.reset_timeout;
  window = [];
  probes_in_flight = 0;
  probe_successes = 0;
  generation = b.generation + 1;
}

unfoldable pub record_probe : ℕ → (failed : Bool) → CircuitBreaker → CircuitBreaker
unfolding trip
record_probe now failed b =
    if failed
    then trip now b
    else if ltb (b.probe_successes + 1) b.config.success_threshold
    then record b { probe_successes = b.probe_successes + 1 }
    else record b {
      state = closed;
      window = [];
      probe_successes = 0;
      generation = b.generation + 1;
    }

-- `_record`; `now` is the clock as `_open` reads it, if it does.
unfoldable pub record_outcome :
    ℕ → (generation : ℕ) → (failed : Bool) → CircuitBreaker → CircuitBreaker
unfolding record_probe trip append_bounded
record_outcome now generation failed b =
    if generation == b.generation
    then (if is_half_open b.state
        then record_probe now failed b
        else (let b' = record b { window = append_bounded b.config.window_size b.window failed } in
            if failed && leb b.config.failure_threshold (failures_in_window b')
            then trip now b'
            else b'))
    else b

-- `CircuitCall._settle`
unfoldable pub settle :
    ℕ → (failed : Bool) → CircuitCall → CircuitBreaker → CircuitCall × CircuitBreaker
settle now failed call b = if call.settled then (call, b) else (
  record call { settled = true },
  record_outcome now call.generation failed (if call.probe then release_probe b else b),
)

abbrev pub succeeded : ℕ → CircuitCall → CircuitBreaker → CircuitCall × CircuitBreaker
succeeded now = settle now false

abbrev pub failed_call : ℕ → CircuitCall → CircuitBreaker → CircuitCall × CircuitBreaker
failed_call now = settle now true

-- `CircuitCall.release`
unfoldable pub release : CircuitCall → CircuitBreaker → CircuitCall × CircuitBreaker
release call b =
    if call.settled
    then (call, b)
    else (record call { settled = true }, if call.probe then release_probe b else b)
