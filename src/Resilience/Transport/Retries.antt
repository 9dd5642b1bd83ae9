-- ===== src/Resilience/Transport/Retries.antt =====
-- What the retry loop guarantees (src/resilience/transport.py).
use mathlib.Core.List.{tail}
use boilerplate_python_fasta.Prelude.{
  refl, zero, suc, ℕ, ◌≡◌, ◌<◌, Option, false, ◌≢◌, true, some, arith, none, List, ◌+◌, length, All,
  ◌≤◌, [], ◌∷◌, ap, All-map,
}
use boilerplate_python_fasta.Resilience.Transport.{
  Outcome, delay_before_next, conclude, transport_error, settle, Exchange, sleep, stop,
  refusal_reason, response, unreachable, Trace, attempts_loop, cancelled, Handled, Verdict,
  handle_async_request, no_trace, resume, proceed, conclude_try, other_error, with_breaker,
}
use boilerplate_python_fasta.Resilience.Policy.{
  RetryPolicy, Request, request_was_sent, Response, is_replayable, TransportError, may_repeat,
  check_retry_policy,
}
use boilerplate_python_fasta.Resilience.Circuit.{
  settle, release, CircuitCall, CircuitBreaker, acquire, Admission, refused, admitted,
}
use boilerplate_python_fasta.Resilience.Circuit.Invariant.{IsValid, IsBehind, acquire-IsValid}
use boilerplate_python_fasta.Resilience.Circuit.System.{
  System, IsSound, run, run-keeps-IsSound, run-IsBehind, IsBehind-acquire, IsBehind-settle,
  IsBehind-release, release-IsValid, settle-IsValid, admitted-IsBehind,
}

-- An attempt of which the far end has seen nothing: the connection was never made.
abbrev pub Unsent : Outcome → Type 0
Unsent (transport_error e) = request_was_sent e ≡ false
Unsent _ = ⊥

-- What is true of an attempt after which the loop sleeps and goes on.
record Retried (p : RetryPolicy) (r : Request) (attempt : ℕ) (o : Outcome) : Type 0 where
  rounds_left : attempt < p.attempts
  replayable : is_replayable r ≡ true
  harmless : may_repeat r p.idempotency_key_headers ≡ false → Unsent o

decided :
    (p : RetryPolicy) (r : Request) (x : Exchange) (attempt d : ℕ) (resp : Option Response)
    (e : Option TransportError)
    → delay_before_next p r x attempt resp e (is_replayable r) ≡ some d
    → refusal_reason p r attempt e (is_replayable r) ≡ none
unfolding delay_before_next
decided p r x attempt d resp e h = ground arith

conclude_sleeps :
    (p : RetryPolicy) (r : Request) (x : Exchange) (attempt d : ℕ) (o : Outcome)
    (call : CircuitCall) (b : CircuitBreaker)
    → (conclude p r x attempt o call b).0 ≡ sleep d
    → Retried p r attempt o
unfolding conclude conclude_try delay_before_next refusal_reason
conclude_sleeps p r x attempt d cancelled call b h = ground arith
conclude_sleeps p r x attempt d other_error call b h = ground arith
conclude_sleeps p r x attempt d (transport_error e) call b h = ground arith
conclude_sleeps p r x attempt d (response resp) call b h = ground arith

conclude_reaches :
    (p : RetryPolicy) (r : Request) (x : Exchange) (attempt : ℕ) (o : Outcome) (call : CircuitCall)
    (b : CircuitBreaker)
    → (conclude p r x attempt o call b).0 ≢ stop unreachable
unfolding conclude conclude_try
conclude_reaches p r x attempt cancelled call b h = ground arith
conclude_reaches p r x attempt other_error call b h = ground arith
conclude_reaches p r x attempt (transport_error e) call b h = ground arith
conclude_reaches p r x attempt (response resp) call b h = ground arith

conclude_settles :
    (p : RetryPolicy) (r : Request) (x : Exchange) (attempt : ℕ) (o : Outcome) (call : CircuitCall)
    (b : CircuitBreaker)
    → (conclude p r x attempt o call b).1.settled ≡ true
unfolding conclude conclude_try settle release
conclude_settles p r x attempt cancelled call b = ground arith
conclude_settles p r x attempt other_error call b = ground arith
conclude_settles p r x attempt (transport_error e) call b = ground arith
conclude_settles p r x attempt (response resp) call b = ground arith

conclude-IsValid :
    (p : RetryPolicy) (r : Request) (x : Exchange) (attempt : ℕ) (o : Outcome) (call : CircuitCall)
    (b : CircuitBreaker)
    → IsValid b
    → IsBehind call b
    → IsValid (conclude p r x attempt o call b).2
unfolding conclude conclude_try
conclude-IsValid p r x attempt cancelled call b v h =
    release-IsValid (release call b).0 (release call b).1 (release-IsValid call b v)
conclude-IsValid p r x attempt other_error call b v h = release-IsValid call b v
conclude-IsValid p r x attempt (transport_error e) call b v h = ground (
  arith,
  release-IsValid call b v,
  release-IsValid (release call b).0 (release call b).1,
  settle-IsValid x.settled_at true call b v h,
  release-IsValid (settle x.settled_at true call b).0 (settle x.settled_at true call b).1,
)
conclude-IsValid p r x attempt (response resp) call b v h = ground (
  arith,
  settle-IsValid x.settled_at true call b v h,
  release-IsValid (settle x.settled_at true call b).0 (settle x.settled_at true call b).1,
  settle-IsValid x.settled_at false call b v h,
  release-IsValid (settle x.settled_at false call b).0 (settle x.settled_at false call b).1,
)

-- What holds of the trace each time that the loop comes round, before the attempt `attempt`.
record Going (p : RetryPolicy) (r : Request) (left attempt : ℕ) (s : System) (t : Trace)
    : Type 0 where
  valid : IsSound s
  rounds : attempt + left ≡ p.attempts + 1
  round_left : 1 ≤ left
  count : length t.sent + left ≤ p.attempts
  once : is_replayable r ≡ false → t.sent ≡ []
  unsent : may_repeat r p.idempotency_key_headers ≡ false → All Unsent t.sent
  settled : All (λ (c : CircuitCall). c.settled ≡ true) t.calls

-- What holds of a request that was handled.
pub record IsHandled (p : RetryPolicy) (r : Request) (h : Handled) : Type 0 where
  pub valid : IsValid h.shared.breaker
  pub reached : h.ending ≢ unreachable
  pub count : length h.trace.sent ≤ p.attempts
  pub once : is_replayable r ≡ false → length h.trace.sent ≤ 1
  pub unsent : may_repeat r p.idempotency_key_headers ≡ false → All Unsent (tail h.trace.sent)
  pub settled : All (λ (c : CircuitCall). c.settled ≡ true) h.trace.calls

-- A breaker that this request changes: the calls of the others stay behind it.
with_breaker-IsSound :
    (s : System) (b : CircuitBreaker)
    → IsSound s
    → IsValid b
    → ((c : CircuitCall) → IsBehind c s.breaker → IsBehind c b)
    → IsSound (with_breaker s b)
with_breaker-IsSound s b h v keep = record {
  valid = v;
  behind = All-map _ (λ c. IsBehind c b) keep s.calls h.behind;
}

conclude-IsBehind :
    (p : RetryPolicy) (r : Request) (x : Exchange) (attempt : ℕ) (o : Outcome) (call : CircuitCall)
    (b : CircuitBreaker) (c : CircuitCall)
    → IsBehind c b
    → IsBehind c (conclude p r x attempt o call b).2
unfolding conclude conclude_try
conclude-IsBehind p r x attempt cancelled call b c h =
    IsBehind-release c _ (IsBehind-release c b h call) (release call b).0
conclude-IsBehind p r x attempt other_error call b c h = IsBehind-release c b h call
conclude-IsBehind p r x attempt (transport_error e) call b c h = ground (
  arith,
  IsBehind-release c _ (IsBehind-release c b h call) (release call b).0,
  IsBehind-release c _ (IsBehind-settle c b h x.settled_at true call)
      (settle x.settled_at true call b).0,
)
conclude-IsBehind p r x attempt (response resp) call b c h = ground (
  arith,
  IsBehind-release c _ (IsBehind-settle c b h x.settled_at true call)
      (settle x.settled_at true call b).0,
  IsBehind-release c _ (IsBehind-settle c b h x.settled_at false call)
      (settle x.settled_at false call b).0,
)

module _ (p : RetryPolicy) (r : Request) (script : ℕ → Exchange) where
  All-tail : (xs : List Outcome) → All Unsent xs → All Unsent (tail xs)
  All-tail [] h = tt
  All-tail (x ∷ xs) h = h.1

  after_conclude :
      (left attempt : ℕ) (s s' : System) (t : Trace) (v : Verdict) (call' : CircuitCall)
      (b : CircuitBreaker) (again : System → Trace → Handled)
      → Going p r (suc left) attempt s t
      → IsSound (with_breaker s' b)
      → call'.settled ≡ true
      → v ≢ stop unreachable
      → ((d : ℕ) → v ≡ sleep d → Retried p r attempt (script attempt).outcome)
      → ((s : System) (t : Trace) → Going p r left (attempt + 1) s t → IsHandled p r (again s t))
      → IsHandled p r (resume t (script attempt) again s' (v, call', b))
  after_conclude left attempt s s' t (stop e) call' b again g sound done reached retried rest =
      record {
        valid = sound.valid;
        reached = λ q. reached (ap stop q);
        count = omega (arith, g.count);
        once = λ q. ground (arith, g.once q);
        unsent = λ q. g.unsent q;
        settled = (done, g.settled);
      }
  after_conclude left attempt s s' t (sleep d) call' b again g sound done reached retried rest =
      let more = retried d refl in
      rest (run (script attempt).while_waiting (with_breaker s' b)) _ (record {
        valid = run-keeps-IsSound (script attempt).while_waiting (with_breaker s' b) sound;
        rounds = omega (arith, g.rounds);
        round_left = omega (arith, g.rounds, more.rounds_left);
        count = omega (arith, g.count);
        once = λ q. ground (arith, more.replayable);
        unsent = λ q. (more.harmless q, g.unsent q);
        settled = (done, g.settled);
      })

  admission-IsHandled :
      (left attempt : ℕ) (s : System) (t : Trace) (a : Admission) (b : CircuitBreaker)
      (again : System → Trace → Handled)
      → Going p r (suc left) attempt s t
      → IsSound (with_breaker s b)
      → ((call : CircuitCall) → a ≡ admitted call → IsBehind call b)
      → ((s : System) (t : Trace) → Going p r left (attempt + 1) s t → IsHandled p r (again s t))
      → IsHandled p r (proceed p r (script attempt) attempt t again s (a, b))
  admission-IsHandled left attempt s t (refused wait) b again g sound behind rest = record {
    valid = sound.valid;
    reached = λ q. cc;
    count = omega (arith, g.count);
    once = λ q. rw (g.once q) (omega arith);
    unsent = λ q. All-tail t.sent (g.unsent q);
    settled = g.settled;
  }
  admission-IsHandled left attempt s t (admitted call) b again g sound behind rest =
      let x = script attempt in
      let s' = run x.while_sending (with_breaker s b) in
      let sound' = run-keeps-IsSound x.while_sending (with_breaker s b) sound in
      let mine = run-IsBehind call x.while_sending (with_breaker s b) (behind call refl) in
      after_conclude left attempt s s' t _ _ _ again g
        (with_breaker-IsSound s' _ sound'
          (conclude-IsValid p r x attempt x.outcome call s'.breaker sound'.valid mine)
          (conclude-IsBehind p r x attempt x.outcome call s'.breaker))
        (conclude_settles p r x attempt x.outcome call s'.breaker)
        (conclude_reaches p r x attempt x.outcome call s'.breaker)
        (λ d. conclude_sleeps p r x attempt d x.outcome call s'.breaker) rest

  loop-IsHandled :
      (left attempt : ℕ) (s : System) (t : Trace)
      → Going p r left attempt s t
      → IsHandled p r (attempts_loop p r script left attempt s t)
  unfolding attempts_loop
  loop-IsHandled zero attempt s t g = absurd (omega (arith, g.round_left))
  loop-IsHandled (suc left) attempt s t g =
      let x = script attempt in
      let now = x.acquired_at in
      let later = x.refused_at in
      admission-IsHandled left attempt s t (acquire now later s.breaker).0
        (acquire now later s.breaker).1 (attempts_loop p r script left (attempt + 1)) g
        (with_breaker-IsSound s _ g.valid (acquire-IsValid now later s.breaker g.valid.valid)
          (λ c k. IsBehind-acquire c s.breaker k now later))
        (admitted-IsBehind now later s.breaker) (λ s t g. loop-IsHandled left (attempt + 1) s t g)

-- A request is handled to an end: with a policy of at least one attempt and a valid breaker,
-- whatever each send ends in, cancellation and foreign exceptions included, and whatever methods
-- other requests call on the breaker meanwhile, the loop never falls through to `unreachable`; at
-- most `attempts` attempts are sent; a request whose body cannot be sent again is sent at most once;
-- a request that may not be repeated is sent again only after attempts that never reached the far
-- end; every call that the breaker admitted to this request is settled; and the breaker is still
-- valid.
pub handle_async_request-IsHandled :
    (p : RetryPolicy) (r : Request) (script : ℕ → Exchange) (s : System)
    → check_retry_policy p ≡ none
    → IsSound s
    → IsHandled p r (handle_async_request p r script s)
unfolding handle_async_request check_retry_policy
handle_async_request-IsHandled p r script s c v =
    loop-IsHandled p r script p.attempts 1 s no_trace (record {
      valid = v;
      rounds = omega arith;
      round_left = ground arith;
      count = omega arith;
      once = λ q. refl;
      unsent = λ q. tt;
      settled = tt;
    })
