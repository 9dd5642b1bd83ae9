-- ===== src/Resilience/Transport/Delays.antt =====
-- How long the retry loop sleeps (src/resilience/transport.py, src/decorators/base.py).
use boilerplate_python_fasta.Prelude.{
  zero, suc, refl, zero, suc, refl, ℕ, max, Bool, ◌+◌, Option, ◌≤◌, ◌*◌, ◌≡◌, ◌^◌, some, min, ◌-◌,
  arith, none, All, Bool-cases, inl, inr,
}
use boilerplate_python_fasta.Resilience.Policy.{
  RetryPolicy, backoff_delay, Request, IsUniform, Response, TransportError, is_replayable,
  is_failure_status,
}
use boilerplate_python_fasta.Resilience.Transport.{
  delay_for, delay_before_next, conclude, Exchange, Outcome, CircuitCall, sleep, transport_error,
  response, cancelled, within_budget, Handled, handle_async_request, Trace, attempts_loop, Verdict,
  proceed, resume, no_trace, stop, or_stop, Ending, returned, conclude_try, other_error,
  with_breaker,
}
use boilerplate_python_fasta.Resilience.Circuit.System.{System, run}
use boilerplate_python_fasta.Resilience.Circuit.{
  CircuitCall, CircuitBreaker, Admission, refused, admitted,
}

-- The wait is at most the ceiling, which doubles with each attempt and stops at `max_delay`.
pub backoff_delay-le :
    (attempt base_delay max_delay : ℕ) (jitter : Bool) (uniform : ℕ → ℕ)
    → IsUniform uniform
    → (backoff_delay attempt base_delay max_delay jitter uniform ≤ max_delay)
      × (backoff_delay attempt base_delay max_delay jitter uniform
          ≤ base_delay * 2 ^ min (attempt - 1) 32)
unfolding backoff_delay
backoff_delay-le attempt base_delay max_delay jitter uniform u =
    ground (arith, u.in_range (min max_delay (base_delay * 2 ^ min (attempt - 1) 32)))

-- The longest sleep that a policy allows.
abbrev pub longest : RetryPolicy → ℕ
longest p = max p.max_delay (p.max_retry_after + p.base_delay)

-- A sleep that ends before the budget of the request does.
abbrev Leaves : ℕ → Option ℕ → Type 0
Leaves d remaining = within_budget remaining d ≡ some d

stop_ne_sleep : (e : Ending) (d : ℕ) → stop e ≡ sleep d → ⊥
stop_ne_sleep e d h = cc

module _ (p : RetryPolicy) (r : Request) where
  delay_for-le :
      (x : Exchange) (attempt d : ℕ) (resp : Option Response)
      → IsUniform x.uniform
      → delay_for p x attempt resp ≡ some d
      → d ≤ longest p
  unfolding delay_for
  delay_for-le x attempt d resp u h = ground (
    arith,
    u.in_range p.base_delay,
    backoff_delay-le attempt p.base_delay p.max_delay p.jitter x.uniform u,
  )

  kept_in_budget :
      (o remaining : Option ℕ) (d : ℕ)
      → ((n : ℕ) → o ≡ some n → n ≤ longest p)
      → (elim o [ none ↦ none | some n ↦ within_budget remaining n ]) ≡ some d
      → (d ≤ longest p) × Leaves d remaining
  kept_in_budget none remaining d le h = cc
  kept_in_budget (some n) remaining d le h = ground (arith, le n refl)

  delay_before_next-le :
      (x : Exchange) (attempt d : ℕ) (resp : Option Response) (e : Option TransportError)
      → IsUniform x.uniform
      → delay_before_next p r x attempt resp e (is_replayable r) ≡ some d
      → (d ≤ longest p) × Leaves d x.remaining
  unfolding delay_before_next
  delay_before_next-le x attempt d resp e u h = ground (
    arith,
    kept_in_budget (delay_for p x attempt resp) x.remaining d
        (λ n. delay_for-le x attempt n resp u),
  )

  or_stop_sleeps : (e : Ending) (o : Option ℕ) (d : ℕ) → or_stop e o ≡ sleep d → o ≡ some d
  or_stop_sleeps e none d h = cc
  or_stop_sleeps e (some n) d h = ground arith

  retries_response :
      (x : Exchange) (attempt d : ℕ) (resp : Response) (call : CircuitCall) (b : CircuitBreaker)
      → (conclude p r x attempt (response resp) call b).0 ≡ sleep d
      → or_stop (returned resp) (delay_before_next p r x attempt (some resp) none (is_replayable r))
        ≡ sleep d
  unfolding conclude conclude_try
  retries_response x attempt d resp call b h = elim (Bool-cases (is_failure_status resp.status)) [
    | inl e ↦ rw e at h
    | inr e ↦ absurd (stop_ne_sleep _ d (rw e at h))
  ]

  conclude_sleeps-le :
      (x : Exchange) (attempt d : ℕ) (o : Outcome) (call : CircuitCall) (b : CircuitBreaker)
      → IsUniform x.uniform
      → (conclude p r x attempt o call b).0 ≡ sleep d
      → (d ≤ longest p) × Leaves d x.remaining
  unfolding conclude conclude_try
  conclude_sleeps-le x attempt d cancelled call b u h = ground arith
  conclude_sleeps-le x attempt d other_error call b u h = ground arith
  conclude_sleeps-le x attempt d (transport_error e) call b u h =
      ground (arith, delay_before_next-le x attempt d none (some e) u)
  conclude_sleeps-le x attempt d (response resp) call b u h =
      delay_before_next-le x attempt d (some resp) none u
        (or_stop_sleeps (returned resp) _ d (retries_response x attempt d resp call b h))

  module _ (script : ℕ → Exchange) (u : (k : ℕ) → IsUniform (script k).uniform) where
    resume_sleeps :
        (attempt : ℕ) (t : Trace) (x : Exchange) (again : System → Trace → Handled) (s : System)
        (v : Verdict) (call : CircuitCall) (b : CircuitBreaker)
        → All (λ d. d ≤ longest p) t.sleeps
        → ((d : ℕ) → v ≡ sleep d → d ≤ longest p)
        → ((s : System) (t : Trace)
            → All (λ d. d ≤ longest p) t.sleeps
            → All (λ d. d ≤ longest p) (again s t).trace.sleeps)
        → All (λ d. d ≤ longest p) (resume t x again s (v, call, b)).trace.sleeps
    resume_sleeps attempt t x again s (stop e) call b h le rest = h
    resume_sleeps attempt t x again s (sleep d) call b h le rest =
        rest (run x.while_waiting (with_breaker s b)) _ (le d refl, h)

    proceed_sleeps :
        (attempt : ℕ) (t : Trace) (again : System → Trace → Handled) (s : System) (a : Admission)
        (b : CircuitBreaker)
        → All (λ d. d ≤ longest p) t.sleeps
        → ((s : System) (t : Trace)
            → All (λ d. d ≤ longest p) t.sleeps
            → All (λ d. d ≤ longest p) (again s t).trace.sleeps)
        → All
            (λ d. d ≤ longest p)
            (proceed p r (script attempt) attempt t again s (a, b)).trace.sleeps
    proceed_sleeps attempt t again s (refused wait) b h rest = h
    proceed_sleeps attempt t again s (admitted call) b h rest =
        let s' = run (script attempt).while_sending (with_breaker s b) in
        resume_sleeps attempt t (script attempt) again s' _ _ _ h
          (λ d q.
            (conclude_sleeps-le (script attempt) attempt d (script attempt).outcome call s'.breaker
              (u attempt) q).0)
          rest

    loop_sleeps :
        (left attempt : ℕ) (s : System) (t : Trace)
        → All (λ d. d ≤ longest p) t.sleeps
        → All (λ d. d ≤ longest p) (attempts_loop p r script left attempt s t).trace.sleeps
    unfolding attempts_loop
    loop_sleeps zero attempt s t h = h
    loop_sleeps (suc left) attempt s t h =
        proceed_sleeps attempt t (attempts_loop p r script left (attempt + 1)) s _ _ h
          (loop_sleeps left (attempt + 1))

-- Where the random draws are in their range, no sleep between two attempts is longer than
-- `max_delay` or than `max_retry_after + base_delay`, whatever the far end asks for.
pub sleeps_bounded :
    (p : RetryPolicy) (r : Request) (script : ℕ → Exchange) (s : System)
    → ((k : ℕ) → IsUniform (script k).uniform)
    → All (λ d. d ≤ longest p) (handle_async_request p r script s).trace.sleeps
unfolding handle_async_request
sleeps_bounded p r script s u = loop_sleeps p r script u p.attempts 1 s no_trace tt
