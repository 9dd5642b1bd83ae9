-- ===== src/Ws/RateLimit/Offers.antt =====
-- The decisions of a connection's limiter (src/ws/ratelimit.py).
use boilerplate_python_fasta.Ws.RateLimit.{
  take, RateLimiter, retry_after, refill, max_wait, Readings, new_limiter, Wait, new_bucket,
  is_positive, LimiterConfig, TokenBucket, built, wait, never, offer,
}
use boilerplate_python_fasta.Prelude.{
  arith, inl, inr, ℕ, ◌≤◌, ◌≡◌, false, true, Bool-cases, ltb, leb, Bool,
}
use boilerplate_python_fasta.Ws.RateLimit.Bounds.{
  IsBucket, refill_keeps, refill-IsBucket, tokens-refill,
}

pub record IsLimiter (l : RateLimiter) : Type 0 where
  pub messages : IsBucket l.messages
  pub bytes : IsBucket l.bytes
  pub patience : 1 ≤ l.max_violations

-- A limiter that could be constructed is valid, and has seen no violation.
pub new_limiter-IsLimiter :
    (c : LimiterConfig) (now later : ℕ) (l : RateLimiter)
    → new_limiter c now later ≡ built l
    → IsLimiter l × (l.violations ≡ 0)
unfolding new_limiter new_bucket
new_limiter-IsLimiter c now later l h = ground arith

-- The budgets that a message would need, as the limiter asks for them.
abbrev asked_messages : Readings → RateLimiter → Wait × TokenBucket
asked_messages t l = retry_after t.ask_messages 1 l.messages

abbrev asked_bytes : Readings → ℕ → RateLimiter → Wait × TokenBucket
asked_bytes t size l = retry_after t.ask_bytes size l.bytes

-- No wait means that the tokens are there, in the bucket that was asked.
no_wait_covered :
    (now cost : ℕ) (b : TokenBucket)
    → IsBucket b
    → is_positive (retry_after now cost b).0 ≡ false
    → cost ≤ (retry_after now cost b).1.tokens
unfolding retry_after
no_wait_covered now cost b v h = ground arith

-- A wait with a denominator that is no zero.
abbrev Proper : Wait → Type 0
Proper never = Unit
Proper (wait n d) = 1 ≤ d

retry_after-Proper :
    (now cost : ℕ) (b : TokenBucket) → IsBucket b → Proper (retry_after now cost b).0
unfolding retry_after
retry_after-Proper now cost b v = elim (Bool-cases (ltb b.capacity cost)) [
  | inl big ↦ rw big tt
  | inr small ↦ rw small (elim (Bool-cases (leb cost (refill now b).tokens)) [
    | inl covered ↦ rw covered (omega arith)
    | inr short ↦ rw short (omega (arith, (refill_keeps now b).1, v.flows))
  ])
]

max_wait_positive :
    (w v : Wait)
    → Proper w
    → is_positive (max_wait w v) ≡ false
    → (is_positive w ≡ false) × (is_positive v ≡ false)
unfolding max_wait
max_wait_positive never v p h = ground arith
max_wait_positive (wait n d) never p h = ground arith
max_wait_positive (wait n d) (wait m e) p h = grind arith

-- A refill takes no token away from a valid bucket.
take_covered :
    (now cost : ℕ) (b : TokenBucket) → IsBucket b → cost ≤ b.tokens → (take now cost b).0 ≡ true
unfolding take refill
take_covered now cost b v h = ground arith

asked-IsBucket : (now cost : ℕ) (b : TokenBucket) → IsBucket b → IsBucket (retry_after now cost b).1
unfolding retry_after
asked-IsBucket now cost b u = ground (arith, refill-IsBucket now b u)

tokens-le-asked :
    (now cost : ℕ) (b : TokenBucket) → IsBucket b → b.tokens ≤ (retry_after now cost b).1.tokens
unfolding retry_after
tokens-le-asked now cost b u = ground (arith, tokens-refill now b u, u.fits)

take-IsBucket : (now cost : ℕ) (b : TokenBucket) → IsBucket b → IsBucket (take now cost b).1
unfolding take
take-IsBucket now cost b u = ground (arith, refill-IsBucket now b u)

abbrev pub allowed : Readings → ℕ → RateLimiter → Bool
allowed t size l = (offer t size l).0.allowed

abbrev pub after : Readings → ℕ → RateLimiter → RateLimiter
after t size l = (offer t size l).1

module _ (t : Readings) (size : ℕ) (l : RateLimiter) (v : IsLimiter l) where
  no_waits :
      allowed t size l ≡ true
      → (is_positive (asked_messages t l).0 ≡ false)
        × (is_positive (asked_bytes t size l).0 ≡ false)
  unfolding offer
  no_waits h =
      max_wait_positive (asked_messages t l).0 (asked_bytes t size l).0
        (retry_after-Proper t.ask_messages 1 l.messages v.messages) (ground arith)

  pub allowed_is_paid :
      allowed t size l ≡ true
      → ((take t.take_messages 1 (asked_messages t l).1).0 ≡ true)
        × ((take t.take_bytes size (asked_bytes t size l).1).0 ≡ true)
  allowed_is_paid h =
      let w = no_waits h in
      (
        take_covered t.take_messages 1 (asked_messages t l).1
            (asked-IsBucket t.ask_messages 1 l.messages v.messages)
            (no_wait_covered t.ask_messages 1 l.messages v.messages w.0),
        take_covered t.take_bytes size (asked_bytes t size l).1
            (asked-IsBucket t.ask_bytes size l.bytes v.bytes)
            (no_wait_covered t.ask_bytes size l.bytes v.bytes w.1),
      )

  -- A message that is refused costs nothing: neither bucket holds less than before.
  refused_is_free :
      allowed t size l ≡ false
      → (l.messages.tokens ≤ (after t size l).messages.tokens)
        × (l.bytes.tokens ≤ (after t size l).bytes.tokens)
  unfolding offer
  refused_is_free h = ground (
    arith,
    tokens-le-asked t.ask_messages 1 l.messages v.messages,
    tokens-le-asked t.ask_bytes size l.bytes v.bytes,
  )

  pub offer-IsLimiter : IsLimiter (after t size l)
  unfolding offer
  offer-IsLimiter = ground (
    arith,
    v,
    asked-IsBucket t.ask_messages 1 l.messages v.messages,
    asked-IsBucket t.ask_bytes size l.bytes v.bytes,
    take-IsBucket t.take_messages 1 (asked_messages t l).1,
    take-IsBucket t.take_bytes size (asked_bytes t size l).1,
  )
