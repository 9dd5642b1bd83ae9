-- ===== src/Tests/Slots.antt =====
-- Runs of the probe slots of src/resilience/circuit.py.
use boilerplate_python_fasta.Prelude.{refl, [], ◌∷◌, true, false, arith, ◌≤◌, List, ◌≡◌}
use boilerplate_python_fasta.Resilience.Circuit.{
  refused, init, acquire, settle, expire_open_period, record_outcome, CircuitBreaker, CircuitCall,
  refused, admitted,
}
use boilerplate_python_fasta.Resilience.Circuit.System.{
  Action, run, start, perform, take, answer, Action,
}
use boilerplate_python_fasta.Resilience.Circuit.Slots.{stale_probe_frees_slot, live_probes}
use boilerplate_python_fasta.Resilience.Circuit.Slots.Runs.{live_probes_bounded, IsPromptRun}
use boilerplate_python_fasta.Tests.Circuit.{policy, policy-IsUsable, tripped}
use boilerplate_python_fasta.Resilience.Config.{half_open}

-- Two failures open the circuit, and the wait is over when the last call is admitted.
abbrev probing : List Action
probing = take 1 1 ∷ answer 0 2 true ∷ take 3 3 ∷ answer 0 4 true ∷ take 20 20 ∷ []

abbrev full_house : CircuitBreaker
full_house = record tripped { state = half_open; generation = 2; probes_in_flight = 1 }

abbrev straggler : CircuitCall
straggler = record { generation = 1; probe = true; settled = false }

probing_half_open : (run probing (start policy)).breaker.state ≡ half_open
unfolding run perform start init acquire settle expire_open_period record_outcome
probing_half_open = refl

probing_prompt : IsPromptRun true probing (start policy)
unfolding run perform start init acquire settle expire_open_period record_outcome
probing_prompt =
    (tt, (record { prompt = λ _ _ _. refl }, (tt, (record { prompt = λ _ _ _. refl }, (tt, tt)))))

live_probes_bounded_example :
    (live_probes (run probing (start policy))
      ≡ (run probing (start policy)).breaker.probes_in_flight)
    × (live_probes (run probing (start policy))
        ≤ (run probing (start policy)).breaker.config.half_open_max_calls)
live_probes_bounded_example =
    live_probes_bounded policy probing policy-IsUsable probing_prompt probing_half_open

stale_probe_frees_slot_example :
    ((acquire 30 30 full_house).0 ≡ refused 0)
    × ((acquire 30 30 (settle 30 false straggler full_house).1).0
        ≡ admitted (record { generation = 2; probe = true; settled = false }))
stale_probe_frees_slot_example =
    stale_probe_frees_slot 30 30 false straggler full_house refl refl (omega arith) refl refl
      (λ e. omega (arith, e))
