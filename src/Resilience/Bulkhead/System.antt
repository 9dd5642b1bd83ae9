-- ===== src/Resilience/Bulkhead/System.antt =====
-- A bulkhead (src/resilience/bulkhead.py) with the slots that it gave out and the tasks that wait
-- for one.
use boilerplate_python_fasta.Prelude.{
  refl, [], ◌∷◌, none, some, if◌then◌else◌, Bool, Option, List, ◌≡◌, ℕ, false, set, get_elem?, true,
  total, ◌+◌, arith, Bool-cases, inl, total-set, inr,
}
use boilerplate_python_fasta.Resilience.Bulkhead.{
  acquire, resume, release_slot, BulkheadConfig, Bulkhead, Entry, init, Interruption, is_pending,
  Future, entered, cancelled, queued, refused, can_wake,
}
use boilerplate_python_fasta.Resilience.Config.{BulkheadConfig}
use mathlib.Core.Bool.{true}
use boilerplate_python_fasta.Resilience.Bulkhead.Effects.{owed_cancelled}
use boilerplate_python_fasta.Resilience.Bulkhead.Bounds.{Holds, Holds-acquire, entry_weight}
use boilerplate_python_fasta.Resilience.Bulkhead.Resume.{
  used_by, slot_weight, Holds-resume, Holds-returned,
}

pub record System : Type 0 where
  pub bulkhead : Bulkhead
  pub slots : List Bool

-- A call of `acquire`; the event loop cancelling a pending future; a task whose future is done
-- going on; `BulkheadSlot.release`.
pub data Action : Type 0 where
  enter : (deadline : Option ℕ) → Action
  stop : (waiter : ℕ) → Action
  wake : Interruption → (waiter : ℕ) → Action
  finish : (slot : ℕ) → Action

abbrev pub start : BulkheadConfig → System
start config = record { bulkhead = init config; slots = [] }

abbrev given : Entry → List Bool → List Bool
given entered slots = false ∷ slots
given _ slots = slots

abbrev finished : Option Bool → ℕ → System → System
finished none i s = s
finished (some released) i s =
    let (now_released, b) = release_slot released s.bulkhead in
    record { bulkhead = b; slots = set s.slots i now_released }

unfoldable pub perform : Action → System → System
perform (enter deadline) s =
    let (e, b) = acquire deadline s.bulkhead in record { bulkhead = b; slots = given e s.slots }
perform (stop w) s =
    if is_pending (get_elem? s.bulkhead.futures w)
    then record s { bulkhead = record s.bulkhead { futures = set s.bulkhead.futures w cancelled } }
    else s
perform (wake how w) s =
    if can_wake (get_elem? s.bulkhead.futures w)
    then (let (got, b) = resume how w s.bulkhead in
        record { bulkhead = b; slots = if got then false ∷ s.slots else s.slots })
    else s
perform (finish i) s = finished (get_elem? s.slots i) i s

unfoldable pub run : List Action → System → System
run [] s = s
run (a ∷ rest) s = run rest (perform a s)

abbrev pub open_slot : Bool → ℕ
open_slot true = 0
open_slot false = 1

-- The bounds, where the slots in use are those that are not released.
abbrev pub IsBounded : BulkheadConfig → System → Type 0
IsBounded config s = Holds config (total open_slot s.slots) 0 s.bulkhead

given-weight :
    (e : Entry) (slots : List Bool)
    → total open_slot slots + entry_weight e ≡ total open_slot (given e slots)
given-weight entered slots = omega arith
given-weight (queued w t) slots = omega arith
given-weight (refused r) slots = omega arith

IsBounded-enter :
    (config : BulkheadConfig) (deadline : Option ℕ) (s : System)
    → IsBounded config s
    → IsBounded config (perform (enter deadline) s)
unfolding perform
IsBounded-enter config deadline s k =
    used_by config _ _ _ (given-weight (acquire deadline s.bulkhead).0 s.slots)
      (Holds-acquire config (total open_slot s.slots) deadline s.bulkhead k)

IsBounded-stop :
    (config : BulkheadConfig) (w : ℕ) (s : System)
    → IsBounded config s
    → IsBounded config (perform (stop w) s)
unfolding perform
IsBounded-stop config w s k = elim (Bool-cases (is_pending (get_elem? s.bulkhead.futures w))) [
  | inl e ↦ rw e (record {
    same = k.same;
    exact = omega (arith, k.exact, owed_cancelled s.bulkhead.futures w e);
    limited = k.limited;
    full = k.full;
    queue = k.queue;
  })
  | inr e ↦ rw e k
]

slots-weight :
    (got : Bool) (slots : List Bool)
    → total open_slot slots + slot_weight got
      ≡ total open_slot (if got then false ∷ slots else slots)
slots-weight true slots = omega arith
slots-weight false slots = omega arith

woken :
    (config : BulkheadConfig) (how : Interruption) (w : ℕ) (s : System) (o : Option Future)
    → get_elem? s.bulkhead.futures w ≡ o
    → IsBounded config s
    → IsBounded config (perform (wake how w) s)
unfolding perform
woken config how w s none e k = rw e k
woken config how w s (some f) e k = elim (Bool-cases (can_wake (some f))) [
  | inl c ↦
      rw (e, c)
        (used_by config _ _ _ (slots-weight (resume how w s.bulkhead).0 s.slots)
          (Holds-resume config (total open_slot s.slots) how w f s.bulkhead e c k))
  | inr c ↦ rw (e, c) k
]

IsBounded-wake :
    (config : BulkheadConfig) (how : Interruption) (w : ℕ) (s : System)
    → IsBounded config s
    → IsBounded config (perform (wake how w) s)
unfolding perform resume
IsBounded-wake config how w s k = woken config how w s (get_elem? s.bulkhead.futures w) refl k

IsBounded-finish :
    (config : BulkheadConfig) (i : ℕ) (s : System)
    → IsBounded config s
    → IsBounded config (perform (finish i) s)
unfolding perform release_slot
IsBounded-finish config i s k =
    elim (get_elem? s.slots i)
        as (λ o. get_elem? s.slots i ≡ o → IsBounded config (finished o i s)) [
          | none ↦ λ e. k
          | some true ↦
              λ e. used_by config _ _ _ (omega (arith, total-set open_slot s.slots i true true e)) k
          | some false ↦ λ e.
              Holds-returned config _ s.bulkhead
                (used_by config _ _ _ (omega (arith, total-set open_slot s.slots i false true e)) k)
        ]
      refl

IsBounded-perform :
    (config : BulkheadConfig) (a : Action) (s : System)
    → IsBounded config s
    → IsBounded config (perform a s)
IsBounded-perform config (enter deadline) s k = IsBounded-enter config deadline s k
IsBounded-perform config (stop w) s k = IsBounded-stop config w s k
IsBounded-perform config (wake how w) s k = IsBounded-wake config how w s k
IsBounded-perform config (finish i) s k = IsBounded-finish config i s k

IsBounded-from :
    (config : BulkheadConfig) (actions : List Action) (s : System)
    → IsBounded config s
    → IsBounded config (run actions s)
unfolding run
IsBounded-from config [] s k = k
IsBounded-from config (a ∷ rest) s k =
    IsBounded-from config rest (perform a s) (IsBounded-perform config a s k)

-- From an empty compartment, and whatever the order of calls, hand-overs, cancelled waits,
-- timeouts and releases (a slot released twice included, `reset` not): `in_flight` is exactly the
-- slots in use plus those on their way to a waiter, at most `limit`; if anyone is queued then the
-- compartment is full; and at most `max_queue` wait.
pub run-IsBounded :
    (config : BulkheadConfig) (actions : List Action)
    → IsBounded config (run actions (start config))
run-IsBounded config actions = IsBounded-from config actions (start config) (record {
  same = refl;
  exact = omega arith;
  limited = omega arith;
  full = inl refl;
  queue = omega arith;
})
