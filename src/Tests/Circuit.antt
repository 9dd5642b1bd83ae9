-- ===== src/Tests/Circuit.antt =====
-- Runs of the breaker of src/resilience/circuit.py.
use boilerplate_python_fasta.Prelude.{
  refl, [], ◌∷◌, true, false, arith, List, count_true, ◌≡◌, ◌<◌, ◌⊎◌, ◌≤◌, ℕ, ◌+◌,
}
use boilerplate_python_fasta.Resilience.Circuit.{settle, release, CircuitBreaker, CircuitCall}
use boilerplate_python_fasta.Resilience.Circuit.System.{
  Action, run, start, take, answer, look, run-IsValid, Action,
}
use boilerplate_python_fasta.Resilience.Circuit.Behaviour.{
  settled_once, outcome_by_history, after, last, Remembers,
}
use boilerplate_python_fasta.Resilience.Circuit.Recovery.{
  Times, successes_close, successes, IsClosed, IsDue,
}
use boilerplate_python_fasta.Resilience.Config.{open_state, closed, IsUsable, CircuitBreakerConfig}
use boilerplate_python_fasta.Resilience.Circuit.Invariant.{IsValid}

-- Opens at two failures among the last four, for ten ticks; closes after two probes.
abbrev pub policy : CircuitBreakerConfig
policy = record {
  failure_threshold = 2;
  window_size = 4;
  reset_timeout = 10;
  success_threshold = 2;
  half_open_max_calls = 1;
}

pub policy-IsUsable : IsUsable policy
policy-IsUsable = record {
  failures = omega arith;
  window = omega arith;
  timeout = omega arith;
  successes = omega arith;
  probes = omega arith;
}

-- Two failures, a wait, and a probe that succeeds.
abbrev pub trouble : List Action
trouble =
    take 1 1
    ∷ answer 0 2 true
    ∷ take 3 3
    ∷ answer 0 4 true
    ∷ look 5
    ∷ take 20 20
    ∷ answer 0 21 false
    ∷ []

-- The breaker after two failures at the times 2 and 4.
abbrev pub tripped : CircuitBreaker
tripped = record {
  config = policy;
  state = open_state;
  window = [];
  open_until = 14;
  generation = 1;
  probes_in_flight = 0;
  probe_successes = 0;
}

tripped-IsValid : IsValid tripped
tripped-IsValid = record {
  usable = policy-IsUsable;
  remembered = omega arith;
  counts = (refl, refl, refl);
}

tripped-IsDue : IsDue 14 tripped
tripped-IsDue = record { valid = tripped-IsValid; state = refl; over = omega arith }

abbrev closed_once : CircuitBreaker
closed_once = record {
  config = policy;
  state = closed;
  window = false ∷ true ∷ [];
  open_until = 0;
  generation = 0;
  probes_in_flight = 0;
  probe_successes = 0;
}

closed_once-IsValid : IsValid closed_once
closed_once-IsValid = record {
  usable = policy-IsUsable;
  remembered = omega arith;
  counts = (omega arith, refl);
}

abbrev late_call : CircuitCall
late_call = record { generation = 0; probe = true; settled = false }

closed_once-Remembers : Remembers (false ∷ true ∷ []) closed_once
unfolding last
closed_once-Remembers = record { state = refl; window = refl }

run-IsValid_example : IsValid (run trouble (start policy)).breaker
run-IsValid_example = run-IsValid policy trouble policy-IsUsable

outcome_by_history_example :
    ((count_true (last 4 (false ∷ true ∷ true ∷ [])) < 2)
      × Remembers (false ∷ true ∷ true ∷ []) (after 7 true closed_once)
      × ((after 7 true closed_once).generation ≡ 0))
    ⊎ ((2 ≤ count_true (last 4 (false ∷ true ∷ true ∷ [])))
        × ((after 7 true closed_once).state ≡ open_state)
        × ((after 7 true closed_once).open_until ≡ 17))
outcome_by_history_example =
    outcome_by_history 7 true (false ∷ true ∷ []) closed_once closed_once-IsValid
      closed_once-Remembers

abbrev at_time : ℕ → Times
at_time now = record { acquired_at = now; refused_at = now; settled_at = now + 1 }

successes_close_example : IsClosed (successes (at_time 14 ∷ at_time 20 ∷ []) tripped)
successes_close_example = successes_close (at_time 14) (at_time 20 ∷ []) tripped tripped-IsDue refl

settled_once_example :
    (settle 6 false (settle 5 true late_call tripped).0 closed_once
      ≡ ((settle 5 true late_call tripped).0, closed_once))
    × (release (settle 5 true late_call tripped).0 closed_once
        ≡ ((settle 5 true late_call tripped).0, closed_once))
    × (settle 6 false (release late_call tripped).0 closed_once
        ≡ ((release late_call tripped).0, closed_once))
    × (release (release late_call tripped).0 closed_once
        ≡ ((release late_call tripped).0, closed_once))
settled_once_example = settled_once 5 6 true false late_call tripped closed_once
