-- ===== src/Resilience/Bulkhead/Bounds.antt =====
-- The bounds that a bulkhead keeps (src/resilience/bulkhead.py).
use boilerplate_python_fasta.Prelude.{
  refl, [], ◌∷◌, none, some, inl, inr, List, ℕ, ◌≡◌, Option, Bool, ◌+◌, ◌<◌, ◌&&◌, length, ltb, ◌⊎◌,
  Bool-cases, arith, get_elem?, ◌≤◌, false, true, ◌∙◌, ap, leb, total-append, subst, length-append,
}
use boilerplate_python_fasta.Resilience.Bulkhead.{
  acquire, discard, release, pending, enqueue, Entry, BulkheadConfig, entered, Bulkhead, Future,
  is_nil, wait_budget,
}
use boilerplate_python_fasta.Resilience.Bulkhead.Effects.{
  owed, IsReleased, release-IsReleased, owed_slots, owed_left, remove_first-nil,
  remove_first-length,
}
use boilerplate_python_fasta.Resilience.Config.{BulkheadConfig}

-- With `used` slots in use and `gone` slots given back that are still among the others: every
-- unit of `in_flight` is a slot in use or on its way to a waiter; it is within the limit; nobody
-- waits while there is room; the queue is within its bound.
pub record Holds (config : BulkheadConfig) (used gone : ℕ) (b : Bulkhead) : Type 0 where
  pub same : b.config ≡ config
  pub exact : b.in_flight + gone ≡ used + owed_slots b
  pub limited : b.in_flight ≤ config.limit
  pub full : (b.waiters ≡ []) ⊎ (b.in_flight ≡ config.limit)
  pub queue : length b.waiters ≤ config.max_queue

empty_by_length : (ws vs : List ℕ) → ws ≡ [] → length vs ≤ length ws → vs ≡ []
empty_by_length ws [] e h = refl
empty_by_length ws (v ∷ vs) e h = absurd (omega (arith, ap length e))

full_after :
    {limit : ℕ} (b b' : Bulkhead)
    → IsReleased b b'
    → (b.waiters ≡ []) ⊎ (b.in_flight ≡ limit)
    → (b'.waiters ≡ []) ⊎ (b'.in_flight ≡ limit)
full_after b b' r f = elim r.full [
  | inl e ↦ inl e
  | inr e ↦ elim f [
    | inl n ↦ inl (empty_by_length b.waiters b'.waiters n r.shorter)
    | inr n ↦ inr (e ∙ n)
  ]
]

pub Holds-release :
    (config : BulkheadConfig) (used gone : ℕ) (b : Bulkhead)
    → 0 < b.in_flight
    → Holds config used gone b
    → Holds config used (gone + 1) (release b)
Holds-release config used gone b h k =
    let r = release-IsReleased b h in
    record {
      same = r.config ∙ k.same;
      exact = omega (arith, r.slots, k.exact);
      limited = omega (arith, k.limited, r.fewer);
      full = full_after b _ r k.full;
      queue = omega (arith, r.shorter, k.queue);
    }

pub Holds-discard :
    (config : BulkheadConfig) (used gone : ℕ) (b : Bulkhead) (w : ℕ) (f : Future)
    → get_elem? b.futures w ≡ some f
    → Holds config used gone b
    → Holds config (used + owed f) gone (discard w b)
unfolding discard
Holds-discard config used gone b w f e k = record {
  same = k.same;
  exact = omega (arith, k.exact, owed_left b.futures w f e);
  limited = k.limited;
  full = elim k.full [ inl n ↦ inl (remove_first-nil w b.waiters n) | inr n ↦ inr n ];
  queue = omega (arith, k.queue, remove_first-length w b.waiters);
}

abbrev pub entry_weight : Entry → ℕ
entry_weight entered = 1
entry_weight _ = 0

Holds-enqueue :
    (config : BulkheadConfig) (used : ℕ) (o : Option (Option ℕ)) (b : Bulkhead)
    → b.in_flight ≡ config.limit
    → length b.waiters < config.max_queue
    → Holds config used 0 b
    → Holds config (used + entry_weight (enqueue o b).0) 0 (enqueue o b).1
Holds-enqueue config used none b f q k = record {
  same = k.same;
  exact = omega (arith, k.exact);
  limited = k.limited;
  full = k.full;
  queue = k.queue;
}
Holds-enqueue config used (some t) b f q k = record {
  same = k.same;
  exact = omega (arith, k.exact, total-append owed b.futures (pending ∷ []));
  limited = k.limited;
  full = inr f;
  queue = omega (arith, k.queue, length-append b.waiters (length b.futures ∷ []));
}

no_waiters : (ws : List ℕ) (x : Bool) → x && is_nil ws ≡ true → ws ≡ []
no_waiters [] x e = refl
no_waiters (w ∷ ws) true e = cc
no_waiters (w ∷ ws) false e = cc

room :
    (config : BulkheadConfig) (b : Bulkhead)
    → ltb b.in_flight b.config.limit && is_nil b.waiters ≡ true
    → b.config ≡ config
    → b.in_flight + 1 ≤ config.limit
room config b e c = subst (λ k. b.in_flight + 1 ≤ k.limit) c (ground arith)

Holds-enter :
    (config : BulkheadConfig) (used : ℕ) (b : Bulkhead)
    → ltb b.in_flight b.config.limit && is_nil b.waiters ≡ true
    → Holds config used 0 b
    → Holds config (used + 1) 0 (record b { in_flight = b.in_flight + 1 })
Holds-enter config used b e k = record {
  same = k.same;
  exact = omega (arith, k.exact);
  limited = room config b e k.same;
  full = inl (no_waiters b.waiters (ltb b.in_flight b.config.limit) e);
  queue = k.queue;
}

closed :
    (config : BulkheadConfig) (b : Bulkhead)
    → ltb b.in_flight b.config.limit && is_nil b.waiters ≡ false
    → b.config ≡ config
    → b.waiters ≡ []
    → config.limit ≤ b.in_flight
closed config b e c n = subst (λ k. k.limit ≤ b.in_flight) c (ground arith)

at_limit :
    (config : BulkheadConfig) (b : Bulkhead)
    → ltb b.in_flight b.config.limit && is_nil b.waiters ≡ false
    → b.config ≡ config
    → b.in_flight ≤ config.limit
    → (b.waiters ≡ []) ⊎ (b.in_flight ≡ config.limit)
    → b.in_flight ≡ config.limit
at_limit config b e c l f = elim f [ inl n ↦ omega (arith, l, closed config b e c n) | inr n ↦ n ]

pub Holds-acquire :
    (config : BulkheadConfig) (used : ℕ) (deadline : Option ℕ) (b : Bulkhead)
    → Holds config used 0 b
    → Holds config (used + entry_weight (acquire deadline b).0) 0 (acquire deadline b).1
unfolding acquire
Holds-acquire config used deadline b k =
    elim (Bool-cases (ltb b.in_flight b.config.limit && is_nil b.waiters)) [
      | inl e ↦ rw e (Holds-enter config used b e k)
      | inr e ↦ rw e (elim (Bool-cases (leb b.config.max_queue (length b.waiters))) [
        | inl q ↦ rw q (record {
          same = k.same;
          exact = omega (arith, k.exact);
          limited = k.limited;
          full = k.full;
          queue = k.queue;
        })
        | inr q ↦ rw q (
            Holds-enqueue config used (wait_budget deadline b.config) b
              (at_limit config b e k.same k.limited k.full)
              (subst (λ c. length b.waiters < c.max_queue) k.same (ground arith)) k)
      ])
    ]
