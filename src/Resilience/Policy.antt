-- ===== src/Resilience/Policy.antt =====
-- What is a failure, and what may be tried again: the functions of src/resilience/base.py and
-- `backoff_delay` of src/decorators/base.py. Durations are whole ticks. A random draw is a function
-- of the upper end of its range.
use Prim.Native.Nat.{ℕ, min}
use Prim.Native.String.{String, [], ◌∷◌}
use boilerplate_python_fasta.Prelude.Text.{codes, same_codes}
use boilerplate_python_fasta.Prelude.{
  String, Bool, Option, List, ℕ, min, if◌then◌else◌, some, true, [], false, map, leb, ◌==◌, ltb,
  ◌∷◌, ◌||◌, ◌&&◌, not, none, ◌-◌, ◌*◌, ◌≤◌, ◌^◌,
}
use boilerplate_python_fasta.Resilience.Config.{ConfigError, bad_attempts, bad_max_delay}

-- The `httpx.TransportError`s that the code tells apart; `other_transport_error` is any further
-- one.
pub data TransportError : Type 0 where
  connect_error connect_timeout pool_timeout bulkhead_full bulkhead_timeout : TransportError
  other_transport_error : TransportError

pub record RetryPolicy : Type 0 where
  pub attempts : ℕ
  pub base_delay : ℕ
  pub max_delay : ℕ
  pub jitter : Bool
  pub idempotency_key_headers : List String
  pub respect_retry_after : Bool
  pub max_retry_after : ℕ

-- `RetryPolicy.__post_init__`; a duration cannot be negative here.
unfoldable pub check_retry_policy : RetryPolicy → Option ConfigError
check_retry_policy p =
    if ltb p.attempts 1
    then some bad_attempts
    else if ltb p.max_delay p.base_delay
    then some bad_max_delay
    else none

-- A method is the code points of its name; `has_header` is the case-insensitive lookup of httpx.
-- `sync_stream` says that the body is a stream that can be iterated again.
pub record Request : Type 0 where
  pub method : List ℕ
  pub has_header : String → Bool
  pub sync_stream : Bool

-- A `Retry-After` header as `int` and `parsedate_to_datetime` read it; a negative number of
-- seconds is `past`.
pub data RetryAfter : Type 0 where
  seconds date : ℕ → RetryAfter
  past malformed : RetryAfter

pub record Response : Type 0 where
  pub status : ℕ
  pub retry_after : Option RetryAfter

unfoldable pub is_failure_status : ℕ → Bool
is_failure_status s = if s == 429 then true else leb 500 s && not (s == 501 || s == 505)

unfoldable pub is_pool_exhaustion : TransportError → Bool
is_pool_exhaustion pool_timeout = true
is_pool_exhaustion _ = false

unfoldable pub is_local_shortage : TransportError → Bool
is_local_shortage pool_timeout = true
is_local_shortage bulkhead_full = true
is_local_shortage _ = false

unfoldable pub request_was_sent : TransportError → Bool
request_was_sent connect_error = false
request_was_sent connect_timeout = false
request_was_sent _ = true

-- `str.upper` on the ASCII letters
abbrev pub upper : ℕ → ℕ
upper c = if leb b'a' c && leb c b'z' then c - 32 else c

abbrev pub any {ℓ} : {A : Type ℓ} → (A → Bool) → List A → Bool
any p [] = false
any p (x ∷ xs) = p x || any p xs

-- `IDEMPOTENT_METHODS`
abbrev pub idempotent_methods : List (List ℕ)
idempotent_methods =
    codes "GET" ∷ codes "HEAD" ∷ codes "OPTIONS" ∷ codes "PUT" ∷ codes "DELETE" ∷ codes "TRACE" ∷ []

unfoldable pub may_repeat : Request → List String → Bool
may_repeat r headers =
    if any (same_codes (map upper r.method)) idempotent_methods
    then true
    else any (λ name. r.has_header name) headers

unfoldable pub is_replayable : Request → Bool
is_replayable r = r.sync_stream

-- `now` is the wall clock; a date in the past is "now".
unfoldable pub retry_after_seconds : (now : ℕ) → Option RetryAfter → Option ℕ
retry_after_seconds now none = none
retry_after_seconds now (some (seconds n)) = some n
retry_after_seconds now (some past) = some 0
retry_after_seconds now (some (date t)) = some (t - now)
retry_after_seconds now (some malformed) = none

-- `backoff_delay`; `uniform c` is `rng.uniform(0.0, c)`.
unfoldable pub backoff_delay :
    (attempt base_delay max_delay : ℕ) (jitter : Bool) (uniform : ℕ → ℕ) → ℕ
backoff_delay attempt base_delay max_delay jitter uniform =
    let ceiling = min max_delay (base_delay * 2 ^ min (attempt - 1) 32) in
    if jitter then uniform ceiling else ceiling

-- The documented range of `rng.uniform(0.0, c)`.
pub record IsUniform (uniform : ℕ → ℕ) : Type 0 where
  pub in_range : (c : ℕ) → uniform c ≤ c
