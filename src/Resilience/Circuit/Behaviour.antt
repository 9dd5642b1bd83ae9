-- ===== src/Resilience/Circuit/Behaviour.antt =====
-- What one method does, on every branch (src/resilience/circuit.py).
use boilerplate_python_fasta.Prelude.{
  ℕ, ◌+◌, ◌-◌, ◌≤◌, ◌<◌, ◌≡◌, ◌≢◌, ◌⊎◌, ◌↔◌, ap, Bool, List, [], ◌∷◌, ◌++◌, arith, length, drop,
  count_true, length-append, drop-drop, drop-append, length-drop,
}
use boilerplate_python_fasta.Resilience.Config.{closed, open_state, half_open}
use boilerplate_python_fasta.Resilience.Circuit.{
  CircuitBreaker, CircuitCall, refused, append_bounded, acquire, record_outcome, release_probe,
  settle, release,
}
use boilerplate_python_fasta.Resilience.Circuit.Invariant.{IsValid, failures_after_success}

-- Why a breaker turns a call away at the time `now`, with the number of ticks to wait.
abbrev pub Blocked : (now later : ℕ) → CircuitBreaker → ℕ → Type 0
Blocked now later b t =
    ((b.state ≡ open_state) × (now < b.open_until) × (t ≡ b.open_until - later))
    ⊎ ((b.state ≡ half_open) × (b.config.half_open_max_calls ≤ b.probes_in_flight) × (t ≡ 0))

-- A valid breaker refuses exactly if its open period still runs, and then asks the caller to wait
-- for the rest of it, or if it is half-open with every probe slot taken, and then asks for no wait.
acquire_refuses_iff :
    (now later : ℕ) (b : CircuitBreaker) (t : ℕ)
    → IsValid b
    → ((acquire now later b).0 ≡ refused t) ↔ Blocked now later b t
unfolding acquire
acquire_refuses_iff now later b t v = (λ h. ground arith, λ h. ground arith)

-- An outcome of an earlier generation gives its probe slot back and changes nothing else.
stale_outcome_ignored :
    (now : ℕ) (failed : Bool) (call : CircuitCall) (b : CircuitBreaker)
    → call.generation ≢ b.generation
    → ((settle now failed call b).1 ≡ (release call b).1)
      × ((settle now failed call b).1.state ≡ b.state)
      × ((settle now failed call b).1.window ≡ b.window)
      × ((settle now failed call b).1.generation ≡ b.generation)
      × ((settle now failed call b).1.probe_successes ≡ b.probe_successes)
unfolding settle release release_probe record_outcome
stale_outcome_ignored now failed call b h = ground arith

-- Once a call is settled or released, settling it again with any outcome and releasing it again
-- change neither the call nor the breaker: an attempt is counted at most once.
pub settled_once :
    (now now' : ℕ) (failed failed' : Bool) (call : CircuitCall) (b b' : CircuitBreaker)
    → (settle now' failed' (settle now failed call b).0 b' ≡ ((settle now failed call b).0, b'))
      × (release (settle now failed call b).0 b' ≡ ((settle now failed call b).0, b'))
      × (settle now' failed' (release call b).0 b' ≡ ((release call b).0, b'))
      × (release (release call b).0 b' ≡ ((release call b).0, b'))
unfolding settle release
settled_once now now' failed failed' call b b' = ground arith

-- The last `n` outcomes of a history, oldest first.
unfoldable pub last : ℕ → List Bool → List Bool
last n h = drop (length h - n) h

-- The deque holds the last `n` outcomes if it held the last `n` before.
append_bounded-last :
    (n : ℕ) (h : List Bool) (x : Bool) → append_bounded n (last n h) x ≡ last n (h ++ x ∷ [])
unfolding append_bounded last
append_bounded-last n h x = rw (← drop-append (length h - n) h (x ∷ []) (omega arith)) (
    rw drop-drop (
      ap (λ k. drop k (h ++ x ∷ []))
        (omega (arith, length-drop (length h - n) (h ++ x ∷ []), length-append h (x ∷ [])))))

-- The breaker is closed, and its window is what the policy keeps of a history of outcomes.
pub record Remembers (h : List Bool) (b : CircuitBreaker) : Type 0 where
  pub state : b.state ≡ closed
  pub window : b.window ≡ last b.config.window_size h

abbrev pub after : ℕ → Bool → CircuitBreaker → CircuitBreaker
after now failed b = record_outcome now b.generation failed b

-- A closed breaker that has seen the outcomes `h` answers one more outcome of its generation by the
-- number of failures among the last `window_size` outcomes: below the threshold it stays closed
-- and remembers the longer history, and otherwise it opens for `reset_timeout`.
pub outcome_by_history :
    (now : ℕ) (failed : Bool) (h : List Bool) (b : CircuitBreaker)
    → IsValid b
    → Remembers h b
    → ((count_true (last b.config.window_size (h ++ failed ∷ [])) < b.config.failure_threshold)
        × Remembers (h ++ failed ∷ []) (after now failed b)
        × ((after now failed b).generation ≡ b.generation))
      ⊎ ((b.config.failure_threshold ≤ count_true (last b.config.window_size (h ++ failed ∷ [])))
          × ((after now failed b).state ≡ open_state)
          × ((after now failed b).open_until ≡ now + b.config.reset_timeout))
unfolding record_outcome
outcome_by_history now failed h b v m = ground (
  arith,
  append_bounded-last b.config.window_size h failed,
  failures_after_success b.config.window_size b.window,
)
