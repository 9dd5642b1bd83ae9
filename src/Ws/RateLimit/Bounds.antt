-- ===== src/Ws/RateLimit/Bounds.antt =====
-- What a token bucket admits over time, and when a refused request would succeed
-- (src/ws/ratelimit.py).
use boilerplate_python_fasta.Ws.RateLimit.{
  take, TokenBucket, retry_after, new_bucket, Wait, built, wait, never, refill, is_positive,
}
use boilerplate_python_fasta.Prelude.{
  sym, inl, inr, refl, [], ◌∷◌, arith, List, ℕ, if◌then◌else◌, ◌≡◌, ◌≤◌, ◌+◌, false, ◌-◌, ◌*◌, true,
  ap, ◌↔◌, Bool-cases, ◌<◌, min, ltb, inl, ltb→lt, inr, leb, ◌⊎◌, ◌≢◌, ◌∙◌, suc, zero,
}

pub record IsBucket (b : TokenBucket) : Type 0 where
  pub holds : 1 ≤ b.capacity
  pub flows : 1 ≤ b.rate
  pub fits : b.tokens ≤ b.capacity

-- A bucket that could be constructed is full and valid.
pub new_bucket-IsBucket :
    (capacity rate now : ℕ) (b : TokenBucket) → new_bucket capacity rate now ≡ built b → IsBucket b
unfolding new_bucket
new_bucket-IsBucket capacity rate now b h = ground arith

-- The costs of a run of `take`s, each at its time, that succeed.
unfoldable pub admitted_cost : List (ℕ × ℕ) → TokenBucket → ℕ
admitted_cost [] b = 0
admitted_cost ((now, cost) ∷ rest) b =
    (if (take now cost b).0 then cost else 0) + admitted_cost rest (take now cost b).1

-- The readings of the clock do not go back, from `start` on, and end at `end`.
abbrev pub Monotone : ℕ → ℕ → List (ℕ × ℕ) → Type 0
Monotone start end [] = start ≤ end
Monotone start end ((now, cost) ∷ rest) = (start ≤ now) × Monotone now end rest

Monotone-le : (start end : ℕ) (l : List (ℕ × ℕ)) → Monotone start end l → start ≤ end
Monotone-le start end [] h = h
Monotone-le start end ((now, cost) ∷ rest) h = omega (arith, Monotone-le now end rest h.1)

-- What a bucket can still give out until the time `end`.
abbrev pub potential : ℕ → TokenBucket → ℕ
potential end b = b.tokens + (end - b.updated) * b.rate

-- A span of time flows in in two parts.
span :
    (start now end rate : ℕ)
    → start ≤ now
    → now ≤ end
    → (end - start) * rate ≡ (now - start) * rate + (end - now) * rate
span start now end rate h k = omega (arith, ap (λ (t : ℕ). t * rate) (split_span start now end h k))
  where
    split_span :
        (start now end : ℕ) → start ≤ now → now ≤ end → end - start ≡ (now - start) + (end - now)
    split_span start now end h k = omega arith

module _ (now cost end : ℕ) (b : TokenBucket) (past : b.updated ≤ now) (within : now ≤ end) where
  pub take-potential :
      (if (take now cost b).0 then cost else 0) + potential end (take now cost b).1
      ≤ potential end b
  unfolding take refill
  take-potential = ground (arith, span b.updated now end b.rate past within)

  pub retry_after_potential : potential end (retry_after now cost b).1 ≤ potential end b
  unfolding retry_after refill
  retry_after_potential = ground (arith, span b.updated now end b.rate past within)

pub take_updated : (now cost : ℕ) (b : TokenBucket) → (take now cost b).1.updated ≡ now
unfolding take refill
take_updated now cost b = ground arith

budget :
    (requests : List (ℕ × ℕ)) (end : ℕ) (b : TokenBucket)
    → Monotone b.updated end requests
    → admitted_cost requests b ≤ potential end b
unfolding admitted_cost
budget [] end b h = omega arith
budget ((now, cost) ∷ rest) end b h = omega (
  arith,
  take-potential now cost end b h.0 (Monotone-le now end rest h.1),
  budget rest end (take now cost b).1 (rw take_updated h.1),
)

-- From the last use of a valid bucket until any later time, the costs of the requests that succeed
-- sum to at most the burst and what flows in meanwhile, whatever the requests are, as long as the
-- clock does not go back.
admitted_cost-le :
    (requests : List (ℕ × ℕ)) (end : ℕ) (b : TokenBucket)
    → IsBucket b
    → Monotone b.updated end requests
    → admitted_cost requests b ≤ b.capacity + (end - b.updated) * b.rate
admitted_cost-le requests end b v h = omega (arith, budget requests end b h, v.fits)

module _ (now : ℕ) (b : TokenBucket) (v : IsBucket b) where
  pub refill-IsBucket : IsBucket (refill now b)
  unfolding refill
  refill-IsBucket = ground arith

  pub tokens-refill : (refill now b).tokens ≡ min b.capacity (b.tokens + (now - b.updated) * b.rate)
  unfolding refill
  tokens-refill = ground arith

pub refill_keeps :
    (now : ℕ) (b : TokenBucket)
    → ((refill now b).updated ≡ now)
      × ((refill now b).rate ≡ b.rate)
      × ((refill now b).capacity ≡ b.capacity)
unfolding refill
refill_keeps now b = ground arith

pub take_iff :
    (now cost : ℕ) (b : TokenBucket) → ((take now cost b).0 ≡ true) ↔ (cost ≤ (refill now b).tokens)
unfolding take
take_iff now cost b = (λ h. ground arith, λ h. ground arith)

-- A request at least as late as a refill: what has flowed in since is counted once.
pub tokens-refill_later :
    (now t : ℕ) (b : TokenBucket)
    → IsBucket b
    → (refill (now + t) (refill now b)).tokens ≡ min b.capacity ((refill now b).tokens + t * b.rate)
tokens-refill_later now t b v =
    let k = refill_keeps now b in
    rw (tokens-refill (now + t) (refill now b) (refill-IsBucket now b v), k.0, k.1, k.2)
      (ap (λ (s : ℕ). min b.capacity ((refill now b).tokens + s * b.rate)) (omega arith))

true_ne_false : ¬ (true ≡ false)
true_ne_false h = cc

never_fits :
    (now cost : ℕ) (b : TokenBucket) → IsBucket b → b.capacity < cost → (take now cost b).0 ≡ false
unfolding take
never_fits now cost b v h = ground (arith, tokens-refill now b v)

later_take :
    (now cost t n : ℕ) (b : TokenBucket)
    → IsBucket b
    → cost ≤ b.capacity
    → ((cost ≤ (refill now b).tokens) × (n ≡ 0))
      ⊎ (((refill now b).tokens < cost) × (n ≡ cost - (refill now b).tokens))
    → ((take (now + t) cost (refill now b)).0 ≡ true) ↔ (n ≤ t * b.rate)
later_take now cost t n b v small cases =
    let i = take_iff (now + t) cost (refill now b) in
    let e = tokens-refill_later now t b v in
    (
      λ h. omega (arith, i.0 h, e, cases),
      λ h. i.1 (
          omega
            (arith, h, e, cases, small, (refill-IsBucket now b v).fits, (refill_keeps now b).2)),
    )

-- What the answer of `retry_after` at `now` says of the `take`s of that cost, without the moment
-- that a wait names, which the source rounds.
pub record Tells (now cost : ℕ) (b : TokenBucket) (w : Wait) (b' : TokenBucket) : Type 0 where
  pub hopeless : w ≡ never → (later : ℕ) → (take later cost b').0 ≡ false
  pub hopeful :
      w ≢ never → (enough : ℕ) × ((t : ℕ) → enough ≤ t → (take (now + t) cost b').0 ≡ true)
  pub at_once : (is_positive w ≡ false) ↔ ((take now cost b).0 ≡ true)

Tells-never :
    (now cost : ℕ) (b : TokenBucket) → IsBucket b → b.capacity < cost → Tells now cost b never b
Tells-never now cost b v big = record {
  hopeless = λ e later. never_fits later cost b v big;
  hopeful = λ n. absurd (n refl);
  at_once = (λ h. cc, λ h. absurd (true_ne_false (sym h ∙ never_fits now cost b v big)));
}

enough_time : (n t capacity rate : ℕ) → n ≤ capacity → 1 ≤ rate → capacity ≤ t → n ≤ t * rate
enough_time n t capacity zero h k l = absurd (omega (arith, k))
enough_time n t capacity (suc rate) h k l = omega (arith, h, l)

Tells-wait :
    (now cost n : ℕ) (b : TokenBucket)
    → IsBucket b
    → cost ≤ b.capacity
    → ((cost ≤ (refill now b).tokens) × (n ≡ 0))
      ⊎ (((refill now b).tokens < cost) × (n ≡ cost - (refill now b).tokens))
    → (d : ℕ) → Tells now cost b (wait n d) (refill now b)
unfolding take
Tells-wait now cost n b v small cases d = record {
  hopeless = λ e. cc;
  hopeful = λ e. (
    b.capacity,
    λ t l.
        (later_take now cost t n b v small cases).1
          (enough_time n t b.capacity b.rate (omega (arith, cases, small)) v.flows l),
  );
  at_once = (λ h. ground (arith, cases), λ h. ground (arith, cases));
}

-- On a valid bucket `retry_after` answers `inf` if and only if no `take` of that cost ever succeeds:
-- with another answer every `take` succeeds from some later reading on, if none comes between. It
-- answers 0 if and only if a `take` at the same reading succeeds.
pub retry_after-Tells :
    (now cost : ℕ) (b : TokenBucket)
    → IsBucket b
    → Tells now cost b (retry_after now cost b).0 (retry_after now cost b).1
unfolding retry_after
retry_after-Tells now cost b v = elim (Bool-cases (ltb b.capacity cost)) [
  | inl big ↦ rw big (Tells-never now cost b v (ltb→lt b.capacity cost big))
  | inr small ↦ rw small (elim (Bool-cases (leb cost (refill now b).tokens)) [
    | inl covered ↦
        rw covered (Tells-wait now cost 0 b v (ground arith) (inl (ground arith, refl)) 1)
    | inr short ↦ rw short (
        Tells-wait now cost (cost - (refill now b).tokens) b v (ground arith)
          (inr (ground arith, refl)) (refill now b).rate)
  ])
]
