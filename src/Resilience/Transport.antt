-- ===== src/Resilience/Transport.antt =====
-- `ResilientTransport.handle_async_request` of src/resilience/transport.py: the retry loop around a
-- transport of httpx, whose answers are a parameter. Logging is left out.
pub mod Retries
pub mod Delays
use boilerplate_python_fasta.Resilience.Circuit.System.{System, Action, run}
use Prim.Native.Nat.{ℕ, suc}
use Prim.Native.String.{[]}
use boilerplate_python_fasta.Resilience.Policy.{
  backoff_delay, RetryPolicy, Response, TransportError, Request, retry_after_seconds,
  is_local_shortage, is_replayable, request_was_sent, may_repeat, is_failure_status,
}
use boilerplate_python_fasta.Prelude.{
  zero, Option, List, ℕ, [], some, Bool, if◌then◌else◌, none, leb, not, ltb, false, true, ◌∷◌, ◌+◌,
}
use boilerplate_python_fasta.Resilience.Circuit.{
  CircuitCall, CircuitBreaker, release, acquire, settle, refused, admitted, Admission,
}

-- How the wrapped transport answers an attempt; `other_error` is any exception that is neither a
-- `CancelledError` nor an `httpx.TransportError`.
pub data Outcome : Type 0 where
  response : Response → Outcome
  transport_error : TransportError → Outcome
  cancelled other_error : Outcome

-- What one attempt meets: the clock of the breaker where it acquires and where it settles, the
-- answer, the wall clock, the budget left under an enclosing `deadline()`, and the random draw. The
-- breaker is shared: `while_sending` and `while_waiting` are the methods that other requests call on
-- it and on their calls while this one awaits its answer, and while it closes a response and sleeps.
pub record Exchange : Type 0 where
  pub acquired_at : ℕ
  pub refused_at : ℕ
  pub settled_at : ℕ
  pub outcome : Outcome
  pub wall_clock : ℕ
  pub remaining : Option ℕ
  pub uniform : ℕ → ℕ
  pub while_sending : List Action
  pub while_waiting : List Action

pub data RefusalReason : Type 0 where
  attempts_exhausted body_not_replayable not_idempotent : RefusalReason

-- How the handler ends: a response is returned, or one of these is raised.
pub data Ending : Type 0 where
  returned : Response → Ending
  raised : TransportError → Ending
  circuit_open : (retry_after : ℕ) → Ending
  raised_cancelled raised_other unreachable : Ending

-- `_refusal_reason`
unfoldable pub refusal_reason :
    RetryPolicy
    → Request
    → (attempt : ℕ) → Option TransportError
    → (replayable : Bool) → Option RefusalReason
refusal_reason p r attempt error replayable =
    if leb p.attempts attempt
    then some attempts_exhausted
    else if not replayable
    then some body_not_replayable
    else if elim error [ none ↦ false | some e ↦ not (request_was_sent e) ]
    then none
    else if may_repeat r p.idempotency_key_headers
    then none
    else some not_idempotent

-- `_delay_for`; the first branch needs a response and a `Retry-After` that can be read.
abbrev named_delay : RetryPolicy → (wall_clock : ℕ) → Option Response → Option ℕ
named_delay p wall_clock none = none
named_delay p wall_clock (some r) =
    if p.respect_retry_after then retry_after_seconds wall_clock r.retry_after else none

unfoldable pub delay_for : RetryPolicy → Exchange → (attempt : ℕ) → Option Response → Option ℕ
unfolding backoff_delay retry_after_seconds
delay_for p x attempt r = elim (named_delay p x.wall_clock r) [
  | none ↦ some (backoff_delay attempt p.base_delay p.max_delay p.jitter x.uniform)
  | some named ↦ if ltb p.max_retry_after named then none else some (named + x.uniform p.base_delay)
]

-- `_delay_before_next`
abbrev within_budget : Option ℕ → ℕ → Option ℕ
within_budget none delay = some delay
within_budget (some remaining) delay = if leb remaining delay then none else some delay

unfoldable pub delay_before_next :
    RetryPolicy
    → Request
    → Exchange
    → (attempt : ℕ) → Option Response
    → Option TransportError
    → (replayable : Bool) → Option ℕ
delay_before_next p r x attempt resp error replayable =
    elim (refusal_reason p r attempt error replayable) [
      | some reason ↦ none
      | none ↦ elim (delay_for p x attempt resp) [
        | none ↦ none
        | some d ↦ within_budget x.remaining d
      ]
    ]

-- What the loop leaves: how it ended, the breaker with the calls that other requests hold on it, the
-- outcomes of the attempts that were sent, the sleeps between them and the calls that were admitted
-- to this request, each with the newest first.
pub record Trace : Type 0 where
  pub sent : List Outcome
  pub sleeps : List ℕ
  pub calls : List CircuitCall

pub record Handled : Type 0 where
  pub ending : Ending
  pub shared : System
  pub trace : Trace

-- What one attempt decides: to end, or to sleep and go on.
pub data Verdict : Type 0 where
  stop : Ending → Verdict
  sleep : ℕ → Verdict

abbrev or_stop : Ending → Option ℕ → Verdict
or_stop e none = stop e
or_stop e (some d) = sleep d

abbrev decide : Verdict → CircuitCall × CircuitBreaker → Verdict × CircuitCall × CircuitBreaker
decide v (call, b) = (v, call, b)

-- The body of the loop after `acquire`, but for its `finally`: its verdict, and the call and the
-- breaker that it leaves. An exception that no clause catches leaves both as they were.
unfoldable pub conclude_try :
    RetryPolicy
    → Request
    → Exchange
    → (attempt : ℕ) → Outcome
    → CircuitCall
    → CircuitBreaker
    → Verdict × CircuitCall × CircuitBreaker
conclude_try p r x attempt cancelled call b = decide (stop raised_cancelled) (release call b)
conclude_try p r x attempt other_error call b = (stop raised_other, call, b)
conclude_try p r x attempt (transport_error e) call b =
    if is_local_shortage e
    then decide (stop (raised e)) (release call b)
    else decide
        (or_stop (raised e) (delay_before_next p r x attempt none (some e) (is_replayable r)))
        (settle x.settled_at true call b)
conclude_try p r x attempt (response resp) call b =
    if not (is_failure_status resp.status)
    then decide (stop (returned resp)) (settle x.settled_at false call b)
    else decide
        (or_stop (returned resp)
          (delay_before_next p r x attempt (some resp) none (is_replayable r)))
        (settle x.settled_at true call b)

-- The `finally`.
abbrev pub conclude_finally :
    Verdict × CircuitCall × CircuitBreaker → Verdict × CircuitCall × CircuitBreaker
conclude_finally (v, call, b) = decide v (release call b)

unfoldable pub conclude :
    RetryPolicy
    → Request
    → Exchange
    → (attempt : ℕ) → Outcome
    → CircuitCall
    → CircuitBreaker
    → Verdict × CircuitCall × CircuitBreaker
conclude p r x attempt o call b = conclude_finally (conclude_try p r x attempt o call b)

abbrev note : Trace → Outcome → CircuitCall → Trace
note t o c = record t { sent = o ∷ t.sent; calls = c ∷ t.calls }

abbrev pub with_breaker : System → CircuitBreaker → System
with_breaker s b = record s { breaker = b }

-- What follows the verdict on an attempt; `again` is the rest of the loop.
abbrev resume :
    Trace
    → Exchange
    → (System → Trace → Handled)
    → System
    → Verdict × CircuitCall × CircuitBreaker
    → Handled
resume t x again s (stop e, call, b) = record {
  ending = e;
  shared = with_breaker s b;
  trace = note t x.outcome call;
}
resume t x again s (sleep d, call, b) =
    again (run x.while_waiting (with_breaker s b))
      (record (note t x.outcome call) { sleeps = d ∷ t.sleeps })

-- What follows the answer of the transport, with the shared state that it meets.
abbrev answered :
    RetryPolicy
    → Request
    → Exchange
    → (attempt : ℕ) → Trace
    → (System → Trace → Handled)
    → CircuitCall
    → System
    → Handled
answered p r x attempt t again call s =
    resume t x again s (conclude p r x attempt x.outcome call s.breaker)

-- What follows `acquire`; a refusal leaves the loop as a `CircuitOpenError`.
abbrev proceed :
    RetryPolicy
    → Request
    → Exchange
    → (attempt : ℕ) → Trace
    → (System → Trace → Handled)
    → System
    → Admission × CircuitBreaker
    → Handled
proceed p r x attempt t again s (refused wait, b) = record {
  ending = circuit_open wait;
  shared = with_breaker s b;
  trace = t;
}
proceed p r x attempt t again s (admitted call, b) =
    answered p r x attempt t again call (run x.while_sending (with_breaker s b))

-- `for attempt in range(1, attempts + 1)`, with `left` rounds to go; `script` gives what each
-- attempt meets.
unfoldable pub attempts_loop :
    RetryPolicy → Request → (script : ℕ → Exchange) → (left attempt : ℕ) → System → Trace → Handled
attempts_loop p r script zero attempt s t = record { ending = unreachable; shared = s; trace = t }
attempts_loop p r script (suc left) attempt s t =
    let x = script attempt in
    proceed p r x attempt t (attempts_loop p r script left (attempt + 1)) s
      (acquire x.acquired_at x.refused_at s.breaker)

abbrev no_trace : Trace
no_trace = record { sent = []; sleeps = []; calls = [] }

unfoldable pub handle_async_request :
    RetryPolicy → Request → (script : ℕ → Exchange) → System → Handled
unfolding attempts_loop
handle_async_request p r script s = attempts_loop p r script p.attempts 1 s no_trace
