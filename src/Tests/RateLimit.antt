-- ===== src/Tests/RateLimit.antt =====
-- Runs of the rate limiter of src/ws/ratelimit.py.
use boilerplate_python_fasta.Prelude.{
  refl, [], ◌∷◌, true, false, arith, ℕ, ◌≤◌, List, ◌≡◌, ◌+◌, ◌↔◌, ◌-◌, ◌*◌,
}
use boilerplate_python_fasta.Ws.RateLimit.{
  Readings, new_limiter, new_bucket, built, retry_after, offer, refill, max_wait, LimiterConfig,
  RateLimiter,
}
use boilerplate_python_fasta.Ws.RateLimit.Bounds.{retry_after-Tells, Tells}
use boilerplate_python_fasta.Ws.RateLimit.Offers.{allowed}
use boilerplate_python_fasta.Ws.RateLimit.Runs.{disconnects_after_streak, offer_all, streak}
use boilerplate_python_fasta.Ws.RateLimit.Volume.{admitted_bytes-le, admitted_bytes}

abbrev limits : LimiterConfig
limits = record {
  messages_per_second = 1;
  message_burst = 2;
  bytes_per_second = 10;
  byte_burst = 100;
  max_consecutive_violations = 2;
}

abbrev fresh : RateLimiter
fresh = record {
  messages = record { capacity = 2; rate = 1; tokens = 2; updated = 5 };
  bytes = record { capacity = 100; rate = 10; tokens = 100; updated = 5 };
  max_violations = 2;
  violations = 0;
}

fresh_built : new_limiter limits 5 5 ≡ built fresh
unfolding new_limiter new_bucket
fresh_built = refl

abbrev at : ℕ → Readings
at t = record { ask_messages = t; ask_bytes = t; take_messages = t; take_bytes = t }

abbrev chatter : List (Readings × ℕ)
chatter = (at 5, 60) ∷ (at 6, 60) ∷ (at 9, 60) ∷ []

large_refused : allowed (at 6) 130 fresh ≡ false
unfolding offer retry_after refill max_wait
large_refused = refl

admitted_bytes-le_example : admitted_bytes chatter fresh ≤ 100 + (12 - 5) * 10
admitted_bytes-le_example =
    admitted_bytes-le limits 5 5 12 fresh chatter fresh_built (
      omega arith,
      omega arith,
      (omega arith, omega arith, (omega arith, omega arith, omega arith)),
    )

retry_after-Tells_example :
    Tells 5 60
      (record fresh.bytes { tokens = 45 })
      (retry_after 5 60 (record fresh.bytes { tokens = 45 })).0
      (retry_after 5 60 (record fresh.bytes { tokens = 45 })).1
retry_after-Tells_example =
    retry_after-Tells 5 60 (record fresh.bytes { tokens = 45 })
      (record { holds = omega arith; flows = omega arith; fits = omega arith })

disconnects_after_streak_example :
    ((offer (at 9) 90 (offer_all chatter [] fresh).1).0.disconnect ≡ true) ↔ (
      2
      ≤ streak (allowed (at 9) 90 (offer_all chatter [] fresh).1 ∷ (offer_all chatter [] fresh).0))
disconnects_after_streak_example =
    disconnects_after_streak limits 5 5 fresh chatter (at 9) 90 fresh_built
