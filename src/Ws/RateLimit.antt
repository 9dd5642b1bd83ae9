-- ===== src/Ws/RateLimit.antt =====
-- src/ws/ratelimit.py: the inbound budget of one connection. Time is whole ticks, tokens and rates
-- are whole numbers. Each reading of the clock is an argument.
pub mod Bounds
pub mod Offers
pub mod Runs
pub mod Volume
use boilerplate_python_fasta.Prelude.{
  zero, suc, Bool, if◌then◌else◌, ℕ, false, leb, ◌-◌, true, ltb, ◌==◌, ◌+◌, ◌*◌, min,
}

pub record TokenBucket : Type 0 where
  pub capacity : ℕ
  pub rate : ℕ
  pub tokens : ℕ
  pub updated : ℕ

pub data LimitError : Type 0 where
  bad_capacity bad_rate bad_violations : LimitError

-- `TokenBucket.__init__`: a full bucket, or a `ValueError`.
pub data Built {ℓ} (A : Type ℓ) : Type ℓ where
  built : A → Built A
  value_error : LimitError → Built A

unfoldable pub new_bucket : (capacity rate now : ℕ) → Built TokenBucket
new_bucket capacity rate now =
    if leb capacity 0
    then value_error bad_capacity
    else if leb rate 0
    then value_error bad_rate
    else built (record { capacity = capacity; rate = rate; tokens = capacity; updated = now })

-- The subtraction stops at 0, as `max(0.0, now - updated)` does.
unfoldable pub refill : ℕ → TokenBucket → TokenBucket
refill now b =
    let elapsed = now - b.updated in
    if elapsed == 0
    then record b { updated = now }
    else record b { updated = now; tokens = min b.capacity (b.tokens + elapsed * b.rate) }

-- `tokens`, the property
unfoldable pub tokens_now : ℕ → TokenBucket → ℕ × TokenBucket
tokens_now now b = let b' = refill now b in (b'.tokens, b')

unfoldable pub take : (now cost : ℕ) → TokenBucket → Bool × TokenBucket
take now cost b =
    let b' = refill now b in
    if ltb b'.tokens cost then (false, b') else (true, record b' { tokens = b'.tokens - cost })

-- Seconds to wait: `never` is `inf`, and `wait n d` is the float that dividing n by d gives. Its
-- operands are kept and the rounded quotient is never computed; it is 0 only if n is.
pub data Wait : Type 0 where
  never : Wait
  wait : (numerator denominator : ℕ) → Wait

abbrev pub no_wait : Wait
no_wait = wait 0 1

unfoldable pub retry_after : (now cost : ℕ) → TokenBucket → Wait × TokenBucket
retry_after now cost b =
    if ltb b.capacity cost
    then (never, b)
    else (let b' = refill now b in
        if leb cost b'.tokens then (no_wait, b') else (wait (cost - b'.tokens) b'.rate, b'))

-- `max` of two waits, by cross-multiplication; a tie gives the first. Rounding keeps the order, so
-- the float of the one that is picked is the greater float, though exact quotients can differ where
-- their floats are equal.
unfoldable pub max_wait : Wait → Wait → Wait
max_wait never w = never
max_wait w never = never
max_wait (wait n d) (wait m e) = if ltb (n * e) (m * d) then wait m e else wait n d

-- `wait > 0`
abbrev pub is_positive : Wait → Bool
is_positive never = true
is_positive (wait n d) = ltb 0 n

pub record Decision : Type 0 where
  pub allowed : Bool
  pub retry_after : Wait
  pub disconnect : Bool

pub record RateLimiter : Type 0 where
  pub messages : TokenBucket
  pub bytes : TokenBucket
  pub max_violations : ℕ
  pub violations : ℕ

-- The arguments of `RateLimiter.__init__`.
pub record LimiterConfig : Type 0 where
  pub messages_per_second : ℕ
  pub message_burst : ℕ
  pub bytes_per_second : ℕ
  pub byte_burst : ℕ
  pub max_consecutive_violations : ℕ

unfoldable pub new_limiter : LimiterConfig → (now later : ℕ) → Built RateLimiter
new_limiter c now later =
    if ltb c.max_consecutive_violations 1
    then value_error bad_violations
    else elim (new_bucket c.message_burst c.messages_per_second now) [
      | value_error e ↦ value_error e
      | built m ↦ elim (new_bucket c.byte_burst c.bytes_per_second later) [
        | value_error e ↦ value_error e
        | built b ↦ built (record {
          messages = m;
          bytes = b;
          max_violations = c.max_consecutive_violations;
          violations = 0;
        })
      ]
    ]

-- The four readings of the clock that an `offer` makes.
pub record Readings : Type 0 where
  pub ask_messages : ℕ
  pub ask_bytes : ℕ
  pub take_messages : ℕ
  pub take_bytes : ℕ

unfoldable pub offer : Readings → (size_bytes : ℕ) → RateLimiter → Decision × RateLimiter
offer t size l =
    let (w, m) = retry_after t.ask_messages 1 l.messages in
    let (v, b) = retry_after t.ask_bytes size l.bytes in
    let needed = max_wait w v in
    if is_positive needed
    then (
      record {
        allowed = false;
        retry_after = needed;
        disconnect = leb l.max_violations (l.violations + 1);
      },
      record l { messages = m; bytes = b; violations = l.violations + 1 },
    )
    else (
      record { allowed = true; retry_after = no_wait; disconnect = false },
      record l {
        messages = (take t.take_messages 1 m).1;
        bytes = (take t.take_bytes size b).1;
        violations = 0;
      },
    )
