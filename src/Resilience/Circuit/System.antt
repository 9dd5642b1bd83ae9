-- ===== src/Resilience/Circuit/System.antt =====
-- A breaker with every call that it has admitted, under any sequence of the calls of its methods
-- (src/resilience/circuit.py). A call that is settled stays in the list: settling is idempotent.
use boilerplate_python_fasta.Prelude.{
  ℕ, ◌≡◌, refl, Bool, List, [], ◌∷◌, Option, none, some, arith, get_elem?, set, All, All-map,
  All-get_elem?, All-set,
}
use boilerplate_python_fasta.Resilience.Config.{CircuitBreakerConfig, IsUsable}
use boilerplate_python_fasta.Resilience.Circuit.{
  CircuitBreaker, CircuitCall, Admission, admitted, refused, init, expire_open_period, acquire,
  reset, release_probe, record_outcome, settle, release, read_state,
}
use boilerplate_python_fasta.Resilience.Circuit.Invariant.{
  IsValid, IsBehind, init-IsValid, expire-IsValid, release_probe-IsValid, reset-IsValid,
  acquire-IsValid, record_outcome-IsValid,
}

pub record System : Type 0 where
  pub breaker : CircuitBreaker
  pub calls : List CircuitCall

-- One call of a method; `settle` and `release` name the admitted call by its place.
pub data Action : Type 0 where
  take : (now later : ℕ) → Action
  answer : (place now : ℕ) → (failed : Bool) → Action
  abandon : (place : ℕ) → Action
  look : (now : ℕ) → Action
  force : Action

unfoldable pub start : CircuitBreakerConfig → System
unfolding init
start c = record { breaker = init c; calls = [] }

abbrev pub admit : List CircuitCall → Admission → List CircuitCall
admit calls (admitted call) = call ∷ calls
admit calls (refused _) = calls

abbrev pub update : System → ℕ → CircuitCall × CircuitBreaker → System
update s i r = record { breaker = r.1; calls = set s.calls i r.0 }

unfoldable pub perform : Action → System → System
perform (take now later) s =
    let r = acquire now later s.breaker in record { breaker = r.1; calls = admit s.calls r.0 }
perform (answer i now failed) s = elim (get_elem? s.calls i) [
  | none ↦ s
  | some call ↦ update s i (settle now failed call s.breaker)
]
perform (abandon i) s = elim (get_elem? s.calls i) [
  | none ↦ s
  | some call ↦ update s i (release call s.breaker)
]
perform (look now) s = record s { breaker = (read_state now s.breaker).1 }
perform force s = record s { breaker = reset s.breaker }

unfoldable pub run : List Action → System → System
run [] s = s
run (a ∷ as') s = run as' (perform a s)

pub record IsSound (s : System) : Type 0 where
  pub valid : IsValid s.breaker
  pub behind : All (λ c. IsBehind c s.breaker) s.calls

module _ (c : CircuitCall) (b : CircuitBreaker) (h : IsBehind c b) where
  IsBehind-expire : (now : ℕ) → IsBehind c (expire_open_period now b)
  unfolding expire_open_period
  IsBehind-expire now = ground arith

  pub IsBehind-acquire : (now later : ℕ) → IsBehind c (acquire now later b).1
  unfolding acquire
  IsBehind-acquire now later = ground arith

  IsBehind-reset : IsBehind c (reset b)
  unfolding reset
  IsBehind-reset = ground arith

  pub IsBehind-settle :
      (now : ℕ) (failed : Bool) (call : CircuitCall) → IsBehind c (settle now failed call b).1
  unfolding settle record_outcome release_probe
  IsBehind-settle now failed call = ground arith

  pub IsBehind-release : (call : CircuitCall) → IsBehind c (release call b).1
  unfolding release release_probe
  IsBehind-release call = ground arith

pub settle-IsValid :
    (now : ℕ) (failed : Bool) (call : CircuitCall) (b : CircuitBreaker)
    → IsValid b
    → IsBehind call b
    → IsValid (settle now failed call b).1
unfolding settle release_probe
settle-IsValid now failed call b v h = ground (
  arith,
  release_probe-IsValid b v,
  record_outcome-IsValid now call.generation failed b,
  record_outcome-IsValid now call.generation failed (release_probe b),
)

pub release-IsValid :
    (call : CircuitCall) (b : CircuitBreaker) → IsValid b → IsValid (release call b).1
unfolding release
release-IsValid call b v = ground (arith, release_probe-IsValid b v)

-- What `acquire` admits belongs to the generation of the breaker that it leaves, which is not open.
pub admitted-IsBehind :
    (now later : ℕ) (b : CircuitBreaker) (call : CircuitCall)
    → (acquire now later b).0 ≡ admitted call
    → IsBehind call (acquire now later b).1
unfolding acquire
admitted-IsBehind now later b call h = ground arith

admit-IsBehind :
    (b : CircuitBreaker) (calls : List CircuitCall) (a : Admission)
    → All (λ c. IsBehind c b) calls
    → ((call : CircuitCall) → a ≡ admitted call → IsBehind call b)
    → All (λ c. IsBehind c b) (admit calls a)
admit-IsBehind b calls (admitted call) h new = (new call refl, h)
admit-IsBehind b calls (refused t) h new = h

update-IsSound :
    (s : System) (i : ℕ) (r : CircuitCall × CircuitBreaker)
    → IsValid r.1
    → ((c : CircuitCall) → IsBehind c s.breaker → IsBehind c r.1)
    → IsBehind r.0 r.1
    → All (λ c. IsBehind c s.breaker) s.calls
    → IsSound (update s i r)
update-IsSound s i r v keep mine h = record {
  valid = v;
  behind =
      All-set (λ c. IsBehind c r.1) s.calls i r.0 (All-map _ (λ c. IsBehind c r.1) keep s.calls h)
        mine;
}

-- The call that a settlement leaves differs in its latch alone.
module _ (call : CircuitCall) (b : CircuitBreaker) where
  IsBehind-settled :
      (b' : CircuitBreaker) (now : ℕ) (failed : Bool)
      → IsBehind call b'
      → IsBehind (settle now failed call b).0 b'
  unfolding settle
  IsBehind-settled b' now failed h = ground arith

  IsBehind-released : (b' : CircuitBreaker) → IsBehind call b' → IsBehind (release call b).0 b'
  unfolding release
  IsBehind-released b' h = ground arith

answer-IsSound :
    (i now : ℕ) (failed : Bool) (s : System) (o : Option CircuitCall)
    → get_elem? s.calls i ≡ o
    → IsSound s
    → IsSound (elim o [ none ↦ s | some call ↦ update s i (settle now failed call s.breaker) ])
answer-IsSound i now failed s none e h = h
answer-IsSound i now failed s (some call) e h =
    let mine : IsBehind call s.breaker = All-get_elem? _ s.calls i call h.behind e in
    update-IsSound s i _ (settle-IsValid now failed call s.breaker h.valid mine)
      (λ c k. IsBehind-settle c s.breaker k now failed call)
      (IsBehind-settled call s.breaker _ now failed
        (IsBehind-settle call s.breaker mine now failed call))
      h.behind

abandon-IsSound :
    (i : ℕ) (s : System) (o : Option CircuitCall)
    → get_elem? s.calls i ≡ o
    → IsSound s
    → IsSound (elim o [ none ↦ s | some call ↦ update s i (release call s.breaker) ])
abandon-IsSound i s none e h = h
abandon-IsSound i s (some call) e h =
    let mine : IsBehind call s.breaker = All-get_elem? _ s.calls i call h.behind e in
    update-IsSound s i _ (release-IsValid call s.breaker h.valid)
      (λ c k. IsBehind-release c s.breaker k call)
      (IsBehind-released call s.breaker _ (IsBehind-release call s.breaker mine call)) h.behind

pub perform-IsSound : (a : Action) (s : System) → IsSound s → IsSound (perform a s)
unfolding perform read_state
perform-IsSound (take now later) s h = record {
  valid = acquire-IsValid now later s.breaker h.valid;
  behind =
      admit-IsBehind _ s.calls (acquire now later s.breaker).0
        (All-map _ _ (λ c k. IsBehind-acquire c s.breaker k now later) s.calls h.behind)
        (λ call e. admitted-IsBehind now later s.breaker call e);
}
perform-IsSound (answer i now failed) s h = answer-IsSound i now failed s _ refl h
perform-IsSound (abandon i) s h = abandon-IsSound i s _ refl h
perform-IsSound (look now) s h = record {
  valid = expire-IsValid now s.breaker h.valid;
  behind = All-map _ _ (λ c k. IsBehind-expire c s.breaker k now) s.calls h.behind;
}
perform-IsSound force s h = record {
  valid = reset-IsValid s.breaker h.valid;
  behind = All-map _ _ (λ c k. IsBehind-reset c s.breaker k) s.calls h.behind;
}

pub run-keeps-IsSound : (actions : List Action) (s : System) → IsSound s → IsSound (run actions s)
unfolding run
run-keeps-IsSound [] s h = h
run-keeps-IsSound (a ∷ rest) s h = run-keeps-IsSound rest (perform a s) (perform-IsSound a s h)

-- A call that somebody else holds stays behind the breaker.
updated-IsBehind :
    (c : CircuitCall) (s : System) (o : Option CircuitCall) (i : ℕ)
    (f : CircuitCall → CircuitCall × CircuitBreaker)
    → ((call : CircuitCall) → IsBehind c (f call).1)
    → IsBehind c s.breaker
    → (let after : System = elim o [ none ↦ s | some call ↦ update s i (f call) ] in
        IsBehind c after.breaker)
updated-IsBehind c s none i f h k = k
updated-IsBehind c s (some call) i f h k = h call

perform-IsBehind :
    (c : CircuitCall) (a : Action) (s : System)
    → IsBehind c s.breaker
    → IsBehind c (perform a s).breaker
unfolding perform read_state
perform-IsBehind c (take now later) s h = IsBehind-acquire c s.breaker h now later
perform-IsBehind c (answer i now failed) s h =
    updated-IsBehind c s (get_elem? s.calls i) i (λ call. settle now failed call s.breaker)
      (λ call. IsBehind-settle c s.breaker h now failed call) h
perform-IsBehind c (abandon i) s h =
    updated-IsBehind c s (get_elem? s.calls i) i (λ call. release call s.breaker)
      (λ call. IsBehind-release c s.breaker h call) h
perform-IsBehind c (look now) s h = IsBehind-expire c s.breaker h now
perform-IsBehind c force s h = IsBehind-reset c s.breaker h

pub run-IsBehind :
    (c : CircuitCall) (actions : List Action) (s : System)
    → IsBehind c s.breaker
    → IsBehind c (run actions s).breaker
unfolding run
run-IsBehind c [] s h = h
run-IsBehind c (a ∷ rest) s h = run-IsBehind c rest (perform a s) (perform-IsBehind c a s h)

pub start-IsSound : (c : CircuitBreakerConfig) → IsUsable c → IsSound (start c)
unfolding start
start-IsSound c u = record { valid = init-IsValid c u; behind = tt }

-- Whatever the sequence of acquisitions, outcomes, releases, reads of the state and resets, and
-- whatever the clock reads, a breaker of a usable policy is valid: the window fits, closed means
-- fewer failures than the threshold, open means that nothing is counted, and half-open means that
-- at most `half_open_max_calls` probes are counted and fewer than `success_threshold` successes.
pub run-IsValid :
    (c : CircuitBreakerConfig) (actions : List Action)
    → IsUsable c
    → IsValid (run actions (start c)).breaker
run-IsValid c actions u = (run-keeps-IsSound actions (start c) (start-IsSound c u)).valid
