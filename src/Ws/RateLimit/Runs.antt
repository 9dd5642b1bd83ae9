-- ===== src/Ws/RateLimit/Runs.antt =====
-- A connection's limiter over a run of messages (src/ws/ratelimit.py).
use boilerplate_python_fasta.Ws.RateLimit.Offers.{allowed}
use boilerplate_python_fasta.Prelude.{
  suc, [], ◌∷◌, arith, refl, List, ℕ, Bool, ◌≡◌, ◌↔◌, ◌∙◌, ◌≤◌, subst,
}
use boilerplate_python_fasta.Ws.RateLimit.{
  offer, LimiterConfig, Readings, RateLimiter, new_limiter, built, new_bucket,
}
use mathlib.Core.Bool.{true, false}
use boilerplate_python_fasta.Ws.RateLimit.Offers.{
  IsLimiter, after, offer-IsLimiter, new_limiter-IsLimiter,
}

-- The messages of a run, each with the readings of the clock that it meets and its size. The
-- decisions come back newest first.
unfoldable pub offer_all : List (Readings × ℕ) → List Bool → RateLimiter → List Bool × RateLimiter
offer_all [] log l = (log, l)
offer_all ((t, size) ∷ rest) log l = offer_all rest (allowed t size l ∷ log) (after t size l)

-- How many refusals in a row end a log.
unfoldable pub streak : List Bool → ℕ
streak [] = 0
streak (true ∷ log) = 0
streak (false ∷ log) = suc (streak log)

record Follows (log : List Bool) (l : RateLimiter) : Type 0 where
  counted : l.violations ≡ streak log

Follows-offer :
    (t : Readings) (size : ℕ) (log : List Bool) (l : RateLimiter)
    → Follows log l
    → Follows (allowed t size l ∷ log) (after t size l)
unfolding offer streak
Follows-offer t size log l f = ground arith

Follows-all :
    (messages : List (Readings × ℕ)) (log : List Bool) (l : RateLimiter)
    → Follows log l
    → Follows (offer_all messages log l).0 (offer_all messages log l).1
unfolding offer_all
Follows-all [] log l f = f
Follows-all ((t, size) ∷ rest) log l f =
    Follows-all rest (allowed t size l ∷ log) (after t size l) (Follows-offer t size log l f)

patience_offer :
    (t : Readings) (size : ℕ) (l : RateLimiter) → (after t size l).max_violations ≡ l.max_violations
unfolding offer
patience_offer t size l = ground arith

patience_all :
    (messages : List (Readings × ℕ)) (log : List Bool) (l : RateLimiter)
    → (offer_all messages log l).1.max_violations ≡ l.max_violations
unfolding offer_all
patience_all [] log l = refl
patience_all ((t, size) ∷ rest) log l =
    patience_all rest _ (after t size l) ∙ patience_offer t size l

disconnect_iff :
    (t : Readings) (size : ℕ) (log : List Bool) (l : RateLimiter)
    → IsLimiter l
    → Follows log l
    → ((offer t size l).0.disconnect ≡ true) ↔ (l.max_violations ≤ streak (allowed t size l ∷ log))
unfolding offer streak
disconnect_iff t size log l v f = (λ h. ground arith, λ h. ground arith)

offer_all-IsLimiter :
    (messages : List (Readings × ℕ)) (log : List Bool) (l : RateLimiter)
    → IsLimiter l
    → IsLimiter (offer_all messages log l).1
unfolding offer_all
offer_all-IsLimiter [] log l v = v
offer_all-IsLimiter ((t, size) ∷ rest) log l v =
    offer_all-IsLimiter rest _ (after t size l) (offer-IsLimiter t size l v)

patience_new :
    (c : LimiterConfig) (now later : ℕ) (l : RateLimiter)
    → new_limiter c now later ≡ built l
    → l.max_violations ≡ c.max_consecutive_violations
unfolding new_limiter new_bucket
patience_new c now later l h = ground arith

-- After any run of messages from a new limiter, the next message disconnects if and only if, with
-- its own decision, at least `max_consecutive_violations` refusals stand in a row: one accepted
-- message wipes the count out.
pub disconnects_after_streak :
    (c : LimiterConfig) (now later : ℕ) (l : RateLimiter) (messages : List (Readings × ℕ))
    (t : Readings) (size : ℕ)
    → new_limiter c now later ≡ built l
    → ((offer t size (offer_all messages [] l).1).0.disconnect ≡ true) ↔ (
        c.max_consecutive_violations
        ≤ streak (allowed t size (offer_all messages [] l).1 ∷ (offer_all messages [] l).0))
unfolding streak
disconnects_after_streak c now later l messages t size h =
    let s = new_limiter-IsLimiter c now later l h in
    subst
      (λ (m : ℕ).
        ((offer t size (offer_all messages [] l).1).0.disconnect ≡ true)
        ↔ (m ≤ streak (allowed t size (offer_all messages [] l).1 ∷ (offer_all messages [] l).0)))
      (patience_all messages [] l ∙ patience_new c now later l h)
      (disconnect_iff t size (offer_all messages [] l).0 (offer_all messages [] l).1
        (offer_all-IsLimiter messages [] l s.0)
        (Follows-all messages [] l (record { counted = s.1 })))
