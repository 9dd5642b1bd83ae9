-- ===== src/Resilience/Circuit/Slots/Runs.antt =====
-- The probe slots under any sequence of calls of the methods of a breaker
-- (src/resilience/circuit.py).
use boilerplate_python_fasta.Prelude.{
  ℕ, ◌≤◌, ◌≡◌, inl, Bool, true, false, List, [], ◌∷◌, arith, refl, All-map, All-get_elem?,
  get_elem?, Option, none, some,
}
use boilerplate_python_fasta.Resilience.Config.{half_open, CircuitBreakerConfig, IsUsable}
use boilerplate_python_fasta.Resilience.Circuit.{
  CircuitBreaker, CircuitCall, acquire, reset, read_state, settle, release,
}
use boilerplate_python_fasta.Resilience.Circuit.Invariant.{IsValid}
use boilerplate_python_fasta.Resilience.Circuit.System.{
  System, Action, take, answer, abandon, look, force, perform, run, IsSound, perform-IsSound,
  update, start, start-IsSound, run-IsValid,
}
use boilerplate_python_fasta.Resilience.Circuit.Slots.{
  live_probes, Counted-release, Counted, IsPrompt, Counted-settle, acquire_generation, Settles-set,
  settle_keeps, total-admit, release_keeps, settle_not_live, Counted-acquire, release_not_live,
  expire_generation, generation_moves, release_generation, Counted-expire, reset_generation,
  later_generation, Counted-reset,
}

-- An action that settles or releases no late probe, as far as `exact` asks.
abbrev pub IsPromptAt : Bool → Option CircuitCall → CircuitBreaker → Type 0
IsPromptAt exact none b = Unit
IsPromptAt exact (some call) b = IsPrompt exact call b

abbrev pub IsPromptAction : Bool → Action → System → Type 0
IsPromptAction exact (answer i now failed) s = IsPromptAt exact (get_elem? s.calls i) s.breaker
IsPromptAction exact (abandon i) s = IsPromptAt exact (get_elem? s.calls i) s.breaker
IsPromptAction exact _ s = Unit

abbrev pub IsPromptRun : Bool → List Action → System → Type 0
IsPromptRun exact [] s = Unit
IsPromptRun exact (a ∷ rest) s = IsPromptAction exact a s × IsPromptRun exact rest (perform a s)

abbrev pub Tracks : Bool → System → Type 0
Tracks exact s = Counted exact (live_probes s) s.breaker

Tracks-answer :
    (exact : Bool) (i now : ℕ) (failed : Bool) (s : System) (o : Option CircuitCall)
    → get_elem? s.calls i ≡ o
    → IsSound s
    → IsPromptAt exact o s.breaker
    → Tracks exact s
    → Tracks exact (elim o [ none ↦ s | some call ↦ update s i (settle now failed call s.breaker) ])
Tracks-answer exact i now failed s none e h p k = k
Tracks-answer exact i now failed s (some call) e h p k =
    Counted-settle exact _ _ call s.breaker k h.valid (All-get_elem? _ s.calls i call h.behind e) p
      now failed
      (Settles-set s i call (settle now failed call s.breaker) e h
        (settle_keeps now failed call s.breaker) (λ g. settle_not_live g now failed call s.breaker)
        (generation_moves now failed call s.breaker))

Tracks-abandon :
    (exact : Bool) (i : ℕ) (s : System) (o : Option CircuitCall)
    → get_elem? s.calls i ≡ o
    → IsSound s
    → IsPromptAt exact o s.breaker
    → Tracks exact s
    → Tracks exact (elim o [ none ↦ s | some call ↦ update s i (release call s.breaker) ])
Tracks-abandon exact i s none e h p k = k
Tracks-abandon exact i s (some call) e h p k =
    Counted-release exact _ _ call s.breaker k h.valid (All-get_elem? _ s.calls i call h.behind e) p
      (Settles-set s i call (release call s.breaker) e h (release_keeps call s.breaker)
        (λ g. release_not_live g call s.breaker) (inl (release_generation call s.breaker)))

Tracks-perform :
    (exact : Bool) (a : Action) (s : System)
    → IsSound s
    → IsPromptAction exact a s
    → Tracks exact s
    → Tracks exact (perform a s)
unfolding perform read_state reset
Tracks-perform exact (take now later) s h p k =
    rw
      (
        acquire_generation now later s.breaker,
        total-admit s.breaker.generation s.calls (acquire now later s.breaker).0,
      )
      (Counted-acquire exact (live_probes s) now later s.breaker k)
Tracks-perform exact (answer i now failed) s h p k = Tracks-answer exact i now failed s _ refl h p k
Tracks-perform exact (abandon i) s h p k = Tracks-abandon exact i s _ refl h p k
Tracks-perform exact (look now) s h p k =
    rw (expire_generation now s.breaker) (Counted-expire exact _ s.breaker k now)
Tracks-perform exact force s h p k =
    rw
      (
        reset_generation s.breaker,
        later_generation s.breaker.generation s.calls
            (All-map _ _ (λ c q. q.not_later) s.calls h.behind),
      )
      (Counted-reset exact s.breaker)

Tracks-run :
    (exact : Bool) (actions : List Action) (s : System)
    → IsSound s
    → IsPromptRun exact actions s
    → Tracks exact s
    → Tracks exact (run actions s)
unfolding run
Tracks-run exact [] s h p k = k
Tracks-run exact (a ∷ rest) s h p k =
    Tracks-run exact rest (perform a s) (perform-IsSound a s h) p.1
      (Tracks-perform exact a s h p.0 k)

Tracks-start : (exact : Bool) (c : CircuitBreakerConfig) → Tracks exact (start c)
unfolding start
Tracks-start exact c = record {
  half = λ e. ground arith;
  full = λ e f. ground arith;
  other = λ e. ground arith;
}

prompt_at : (o : Option CircuitCall) (b : CircuitBreaker) → IsPromptAt false o b
prompt_at none b = tt
prompt_at (some call) b = record { prompt = λ e. cc }

action_prompt : (a : Action) (s : System) → IsPromptAction false a s
action_prompt (answer i now failed) s = prompt_at (get_elem? s.calls i) s.breaker
action_prompt (abandon i) s = prompt_at (get_elem? s.calls i) s.breaker
action_prompt _ s = tt

all_prompt : (actions : List Action) (s : System) → IsPromptRun false actions s
all_prompt [] s = tt
all_prompt (a ∷ rest) s = (action_prompt a s, all_prompt rest (perform a s))

-- No slot of a half-open breaker is lost: whatever the actions, the slots counted as taken are at
-- most the probes of this generation that are neither settled nor released.
slots-le-live_probes :
    (c : CircuitBreakerConfig) (actions : List Action)
    → IsUsable c
    → (run actions (start c)).breaker.state ≡ half_open
    → (run actions (start c)).breaker.probes_in_flight ≤ live_probes (run actions (start c))
slots-le-live_probes c actions u e =
    (Tracks-run false actions (start c) (start-IsSound c u) (all_prompt actions (start c))
        (Tracks-start false c)).half
      e

Counted-exactly :
    (n : ℕ) (b : CircuitBreaker)
    → IsValid b
    → Counted true n b
    → b.state ≡ half_open
    → (n ≡ b.probes_in_flight) × (n ≤ b.config.half_open_max_calls)
Counted-exactly n b v k e = ground (arith, k.half e, k.full e refl)

-- As long as no late probe is settled or released, a half-open breaker has at most
-- `half_open_max_calls` unsettled probes of its generation, and counts each of them.
pub live_probes_bounded :
    (c : CircuitBreakerConfig) (actions : List Action)
    → IsUsable c
    → IsPromptRun true actions (start c)
    → (run actions (start c)).breaker.state ≡ half_open
    → (live_probes (run actions (start c)) ≡ (run actions (start c)).breaker.probes_in_flight)
      × (live_probes (run actions (start c))
          ≤ (run actions (start c)).breaker.config.half_open_max_calls)
live_probes_bounded c actions u p e =
    Counted-exactly _ (run actions (start c)).breaker (run-IsValid c actions u)
      (Tracks-run true actions (start c) (start-IsSound c u) p (Tracks-start true c)) e
