-- ===== src/Ws/RateLimit/Volume.antt =====
-- How much a connection gets through its limiter (src/ws/ratelimit.py).
use boilerplate_python_fasta.Ws.RateLimit.{
  LimiterConfig, retry_after, Readings, refill, RateLimiter, new_limiter, TokenBucket, offer, built,
  new_bucket,
}
use boilerplate_python_fasta.Ws.RateLimit.Offers.{
  allowed, IsLimiter, after, offer-IsLimiter, new_limiter-IsLimiter, allowed_is_paid,
}
use boilerplate_python_fasta.Prelude.{
  [], ◌∷◌, arith, List, ℕ, ◌≤◌, if◌then◌else◌, ◌≡◌, ◌+◌, ◌-◌, ◌*◌,
}
use boilerplate_python_fasta.Ws.RateLimit.Bounds.{
  potential, take_updated, retry_after_potential, take-potential,
}

-- The bytes of the messages of a run that are allowed.
unfoldable pub admitted_bytes : List (Readings × ℕ) → RateLimiter → ℕ
admitted_bytes [] l = 0
admitted_bytes ((t, size) ∷ rest) l =
    (if allowed t size l then size else 0) + admitted_bytes rest (after t size l)

-- The readings of the clock by the byte bucket do not go back, from `start` to `end`.
abbrev pub Ordered : ℕ → ℕ → List (Readings × ℕ) → Type 0
Ordered start end [] = start ≤ end
Ordered start end ((t, size) ∷ rest) =
    (start ≤ t.ask_bytes) × (t.ask_bytes ≤ t.take_bytes) × Ordered t.take_bytes end rest

Ordered-le : (start end : ℕ) (l : List (Readings × ℕ)) → Ordered start end l → start ≤ end
Ordered-le start end [] h = h
Ordered-le start end ((t, size) ∷ rest) h = omega (arith, Ordered-le t.take_bytes end rest h.2)

asked_updated :
    (now cost : ℕ) (b : TokenBucket) → b.updated ≤ now → (retry_after now cost b).1.updated ≤ now
unfolding retry_after refill
asked_updated now cost b h = ground arith

module _ (t : Readings) (size end : ℕ) (l : RateLimiter) (v : IsLimiter l)
    (past : l.bytes.updated ≤ t.ask_bytes) (order : t.ask_bytes ≤ t.take_bytes)
    (within : t.take_bytes ≤ end) where
  offer_potential :
      (if allowed t size l then size else 0) + potential end (after t size l).bytes
      ≤ potential end l.bytes
  unfolding offer
  offer_potential =
      let b = (retry_after t.ask_bytes size l.bytes).1 in
      let u = asked_updated t.ask_bytes size l.bytes past in
      ground (
        arith,
        retry_after_potential t.ask_bytes size end l.bytes past (omega arith),
        take-potential t.take_bytes size end b (omega (arith, u)) within,
        allowed_is_paid t size l v,
      )

  bytes_updated : (after t size l).bytes.updated ≤ t.take_bytes
  unfolding offer
  bytes_updated = ground (
    arith,
    asked_updated t.ask_bytes size l.bytes past,
    take_updated t.take_bytes size (retry_after t.ask_bytes size l.bytes).1,
  )

volume :
    (messages : List (Readings × ℕ)) (start end : ℕ) (l : RateLimiter)
    → IsLimiter l
    → l.bytes.updated ≤ start
    → Ordered start end messages
    → admitted_bytes messages l ≤ potential end l.bytes
unfolding admitted_bytes
volume [] start end l v u h = omega arith
volume ((t, size) ∷ rest) start end l v u h =
    let w = Ordered-le t.take_bytes end rest h.2 in
    let p : l.bytes.updated ≤ t.ask_bytes = omega (arith, h.0) in
    omega (
      arith,
      offer_potential t size end l v p h.1 w,
      volume rest t.take_bytes end (after t size l) (offer-IsLimiter t size l v)
          (bytes_updated t size end l v p h.1 w) h.2,
    )

fresh_bytes :
    (c : LimiterConfig) (now start : ℕ) (l : RateLimiter)
    → new_limiter c now start ≡ built l
    → (l.bytes.tokens ≡ c.byte_burst)
      × (l.bytes.updated ≡ start)
      × (l.bytes.rate ≡ c.bytes_per_second)
unfolding new_limiter new_bucket
fresh_bytes c now start l h = ground arith

fresh_potential :
    (end burst start rate : ℕ) (b : TokenBucket)
    → b.tokens ≡ burst
    → b.updated ≡ start
    → b.rate ≡ rate
    → potential end b ≡ burst + (end - start) * rate
fresh_potential end burst start rate b p q r = cc

-- From the construction of the limiter until any later time, the bytes that a connection gets
-- through are at most `byte_burst` and what `bytes_per_second` allows in that time, whatever the
-- messages are, as long as the clock does not go back.
pub admitted_bytes-le :
    (c : LimiterConfig) (now start end : ℕ) (l : RateLimiter) (messages : List (Readings × ℕ))
    → new_limiter c now start ≡ built l
    → Ordered start end messages
    → admitted_bytes messages l ≤ c.byte_burst + (end - start) * c.bytes_per_second
admitted_bytes-le c now start end l messages h o =
    let f = fresh_bytes c now start l h in
    omega (
      arith,
      volume messages start end l (new_limiter-IsLimiter c now start l h).0 (omega (arith, f.1)) o,
      fresh_potential end c.byte_burst start c.bytes_per_second l.bytes f.0 f.1 f.2,
    )
