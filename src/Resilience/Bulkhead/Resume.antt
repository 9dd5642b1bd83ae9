-- ===== src/Resilience/Bulkhead/Resume.antt =====
-- The bounds over `acquire` after its await (src/resilience/bulkhead.py).
use boilerplate_python_fasta.Prelude.{some, Bool, ℕ, ◌≡◌, get_elem?, ◌+◌, subst, arith}
use boilerplate_python_fasta.Resilience.Bulkhead.{
  discard, release, resume, can_wake, BulkheadConfig, Interruption, Bulkhead, Future, reject,
  served, pending, left, cancelled, failed, nothing, timeout_error, other,
}
use boilerplate_python_fasta.Resilience.Bulkhead.Bounds.{Holds, Holds-release, Holds-discard}
use boilerplate_python_fasta.Resilience.Config.{BulkheadConfig}
use mathlib.Core.Bool.{true, false}
use boilerplate_python_fasta.Resilience.Bulkhead.Effects.{release_keeps_served, owed_left}

Holds-reject :
    (config : BulkheadConfig) (used : ℕ) (b : Bulkhead)
    → Holds config used 0 b
    → Holds config used 0 (reject b)
Holds-reject config used b k = record {
  same = k.same;
  exact = k.exact;
  limited = k.limited;
  full = k.full;
  queue = k.queue;
}

pub used_by :
    (config : BulkheadConfig) (used used' : ℕ) (b : Bulkhead)
    → used ≡ used'
    → Holds config used 0 b
    → Holds config used' 0 b
used_by config used used' b e k = subst (λ n. Holds config n 0 b) e k

pub restore :
    (config : BulkheadConfig) (used : ℕ) (b : Bulkhead)
    → Holds config (used + 1) 1 b
    → Holds config used 0 b
restore config used b k = record {
  same = k.same;
  exact = omega (arith, k.exact);
  limited = k.limited;
  full = k.full;
  queue = k.queue;
}

-- A slot in use or owed is given back.
pub Holds-returned :
    (config : BulkheadConfig) (used : ℕ) (b : Bulkhead)
    → Holds config (used + 1) 0 b
    → Holds config used 0 (release b)
Holds-returned config used b k =
    restore config used (release b) (Holds-release config (used + 1) 0 b (omega (arith, k.exact)) k)

passed_on :
    (config : BulkheadConfig) (used : ℕ) (b : Bulkhead) (w : ℕ)
    → get_elem? b.futures w ≡ some served
    → Holds config used 0 b
    → Holds config used 0 (discard w (release b))
passed_on config used b w e k = restore config used _ (
    Holds-discard config used 1 (release b) w served (release_keeps_served b w e)
      (Holds-release config used 0 b (omega (arith, k.exact, owed_left b.futures w served e)) k))

abbrev pub slot_weight : Bool → ℕ
slot_weight true = 1
slot_weight false = 0

-- A task whose future is done goes on, however its wait ends.
pub Holds-resume :
    (config : BulkheadConfig) (used : ℕ) (how : Interruption) (w : ℕ) (f : Future) (b : Bulkhead)
    → get_elem? b.futures w ≡ some f
    → can_wake (some f) ≡ true
    → Holds config used 0 b
    → Holds config (used + slot_weight (resume how w b).0) 0 (resume how w b).1
unfolding resume
Holds-resume config used how w pending b e c k = cc
Holds-resume config used how w left b e c k = cc
Holds-resume config used nothing w served b e c k =
    rw e (Holds-discard config used 0 b w served e k)
Holds-resume config used nothing w cancelled b e c k =
    rw e (Holds-discard config used 0 b w cancelled e k)
Holds-resume config used nothing w failed b e c k =
    rw e (Holds-discard config used 0 b w failed e k)
Holds-resume config used timeout_error w served b e c k =
    rw e (Holds-discard config used 0 b w served e k)
Holds-resume config used timeout_error w cancelled b e c k =
    rw e (Holds-discard config used 0 (reject b) w cancelled e (Holds-reject config used b k))
Holds-resume config used timeout_error w failed b e c k =
    rw e (Holds-discard config used 0 (reject b) w failed e (Holds-reject config used b k))
Holds-resume config used other w served b e c k =
    rw e (used_by config _ _ _ (omega arith) (passed_on config used b w e k))
Holds-resume config used other w cancelled b e c k =
    rw e (Holds-discard config used 0 b w cancelled e k)
Holds-resume config used other w failed b e c k = rw e (Holds-discard config used 0 b w failed e k)
