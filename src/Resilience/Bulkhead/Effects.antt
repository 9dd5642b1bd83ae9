-- ===== src/Resilience/Bulkhead/Effects.antt =====
-- What the operations of a bulkhead do to its counts (src/resilience/bulkhead.py).
use boilerplate_python_fasta.Prelude.{
  refl, [], ◌∷◌, none, some, zero, suc, List, remove_first, ◌≡◌, ◌<◌, ℕ, total, ◌+◌, length,
  get_elem?, arith, inl, true, ℕ_discrete, ◌⊎◌, set, ◌≤◌, Bool-cases, inr, total-set, Option, ◌∙◌,
  ap, All, ◌++◌,
}
use boilerplate_python_fasta.Resilience.Bulkhead.{
  hand_over, release, Bulkhead, Future, is_pending, served, left, pending, cancelled, failed,
}
use mathlib.Core.Bool.{false}

-- A slot that was handed over and not taken up yet.
abbrev pub owed : Future → ℕ
owed served = 1
owed _ = 0

abbrev pub owed_slots : Bulkhead → ℕ
owed_slots b = total owed b.futures

-- One slot fewer is held, or it has gone to a waiter; a queue that remains has a full compartment.
pub record IsReleased (b b' : Bulkhead) : Type 0 where
  pub config : b'.config ≡ b.config
  pub slots : b'.in_flight + owed_slots b + 1 ≡ b.in_flight + owed_slots b'
  pub full : (b'.waiters ≡ []) ⊎ (b'.in_flight ≡ b.in_flight)
  pub fewer : b'.in_flight ≤ b.in_flight
  pub shorter : length b'.waiters ≤ length b.waiters

IsReleased-weaker :
    (b : Bulkhead) (w : ℕ) (ws : List ℕ) (b' : Bulkhead)
    → IsReleased (record b { waiters = ws }) b'
    → IsReleased (record b { waiters = w ∷ ws }) b'
IsReleased-weaker b w ws b' r = record {
  config = r.config;
  slots = r.slots;
  full = r.full;
  fewer = r.fewer;
  shorter = omega (arith, r.shorter);
}

pending_found : (o : Option Future) → is_pending o ≡ true → o ≡ some pending
pending_found none h = cc
pending_found (some pending) h = refl
pending_found (some served) h = cc
pending_found (some cancelled) h = cc
pending_found (some failed) h = cc
pending_found (some left) h = cc

owed_pending :
    (fs : List Future) (w : ℕ)
    → is_pending (get_elem? fs w) ≡ true
    → total owed (set fs w served) ≡ total owed fs + 1
owed_pending fs w h =
    omega (arith, total-set owed fs w pending served (pending_found (get_elem? fs w) h))

hand_over-IsReleased :
    (ws : List ℕ) (b : Bulkhead)
    → 0 < b.in_flight
    → IsReleased (record b { waiters = ws }) (hand_over ws b)
unfolding hand_over
hand_over-IsReleased [] b h = record {
  config = refl;
  slots = omega arith;
  full = inl refl;
  fewer = omega arith;
  shorter = omega arith;
}
hand_over-IsReleased (w ∷ ws) b h = elim (Bool-cases (is_pending (get_elem? b.futures w))) [
  | inl e ↦ rw e (record {
    config = refl;
    slots = omega (arith, owed_pending b.futures w e);
    full = inr refl;
    fewer = omega arith;
    shorter = omega arith;
  })
  | inr e ↦ rw e (IsReleased-weaker b w ws _ (hand_over-IsReleased ws b h))
]

pub release-IsReleased : (b : Bulkhead) → 0 < b.in_flight → IsReleased b (release b)
unfolding release
release-IsReleased b h = hand_over-IsReleased b.waiters b h

pub remove_first-length : (w : ℕ) (ws : List ℕ) → length (remove_first ℕ_discrete w ws) ≤ length ws
unfolding remove_first
remove_first-length w [] = omega arith
remove_first-length w (x ∷ ws) = ground (arith, remove_first-length w ws)

pub remove_first-nil : (w : ℕ) (ws : List ℕ) → ws ≡ [] → remove_first ℕ_discrete w ws ≡ []
unfolding remove_first
remove_first-nil w ws e = rw e refl

served-set :
    (fs : List Future) (v w : ℕ) (g : Future)
    → get_elem? fs w ≡ some served
    → is_pending (get_elem? fs v) ≡ true
    → get_elem? (set fs v g) w ≡ some served
served-set [] v w g h e = cc
served-set (f ∷ fs) zero zero g h e = ground arith
served-set (f ∷ fs) zero (suc w) g h e = h
served-set (f ∷ fs) (suc v) zero g h e = h
served-set (f ∷ fs) (suc v) (suc w) g h e = served-set fs v w g h e

hand_over_keeps :
    (ws : List ℕ) (b : Bulkhead) (w : ℕ)
    → get_elem? b.futures w ≡ some served
    → get_elem? (hand_over ws b).futures w ≡ some served
unfolding hand_over
hand_over_keeps [] b w h = h
hand_over_keeps (v ∷ ws) b w h =
    ground (arith, hand_over_keeps ws b w h, served-set b.futures v w served h)

pub release_keeps_served :
    (b : Bulkhead) (w : ℕ)
    → get_elem? b.futures w ≡ some served
    → get_elem? (release b).futures w ≡ some served
unfolding release
release_keeps_served b w h = hand_over_keeps b.waiters b w h

pub owed_left :
    (fs : List Future) (w : ℕ) (f : Future)
    → get_elem? fs w ≡ some f
    → total owed (set fs w left) + owed f ≡ total owed fs
owed_left fs w f e = omega (arith, total-set owed fs w f left e)

pub owed_cancelled :
    (fs : List Future) (w : ℕ)
    → is_pending (get_elem? fs w) ≡ true
    → total owed (set fs w cancelled) ≡ total owed fs
owed_cancelled fs w h =
    omega (arith, total-set owed fs w pending cancelled (pending_found (get_elem? fs w) h))

hand_over_first :
    (gone rest : List ℕ) (w : ℕ) (b : Bulkhead)
    → All (λ v. is_pending (get_elem? b.futures v) ≡ false) gone
    → is_pending (get_elem? b.futures w) ≡ true
    → hand_over (gone ++ w ∷ rest) b ≡ record b { waiters = rest; futures = set b.futures w served }
unfolding hand_over
hand_over_first [] rest w b h e = rw e refl
hand_over_first (v ∷ gone) rest w b h e = rw h.0 (hand_over_first gone rest w b h.1 e)

-- A freed slot goes to the first of the queue that still waits, past those that gave up, and
-- nothing else of the compartment changes.
pub release_in_order :
    (gone rest : List ℕ) (w : ℕ) (b : Bulkhead)
    → b.waiters ≡ gone ++ w ∷ rest
    → All (λ v. is_pending (get_elem? b.futures v) ≡ false) gone
    → is_pending (get_elem? b.futures w) ≡ true
    → release b ≡ record b { waiters = rest; futures = set b.futures w served }
unfolding release
release_in_order gone rest w b q h e =
    ap (λ ws. hand_over ws b) q ∙ hand_over_first gone rest w b h e
