-- ===== src/Resilience/Bulkhead.antt =====
-- `Bulkhead` of src/resilience/bulkhead.py. A waiter is the index of its future in `futures`. The
-- coroutine `acquire` is `acquire` up to the await and `resume` from there on. `current_deadline()`
-- and its remaining time are an argument.
pub mod Effects
pub mod Bounds
pub mod Resume
pub mod System
use boilerplate_python_fasta.Prelude.{
  refl, [], ◌∷◌, none, some, zero, suc, ℕ, Bool, ◌+◌, Option, List, true, length, ◌-◌,
  if◌then◌else◌, get_elem?, remove_first, set, ltb, false, ◌++◌, leb, ℕ_discrete, ◌&&◌,
}
use boilerplate_python_fasta.Resilience.Config.{BulkheadConfig}
use mathlib.Core.Bool.{false}

-- A future that somebody waits for. `left` is one that is done and whose task has gone on.
pub data Future : Type 0 where
  pending served cancelled failed left : Future

pub record Bulkhead : Type 0 where
  pub config : BulkheadConfig
  pub in_flight : ℕ
  pub waiters : List ℕ
  pub rejected : ℕ
  pub futures : List Future

pub data Rejection : Type 0 where
  queue_full acquire_timed_out no_budget : Rejection

abbrev pub init : BulkheadConfig → Bulkhead
init config = record { config = config; in_flight = 0; waiters = []; rejected = 0; futures = [] }

-- `not waiter.done()`
abbrev pub is_pending : Option Future → Bool
is_pending (some pending) = true
is_pending _ = false

-- `_was_handed_a_slot`
abbrev pub was_handed_a_slot : Option Future → Bool
was_handed_a_slot (some served) = true
was_handed_a_slot _ = false

abbrev pub reject : Bulkhead → Bulkhead
reject b = record b { rejected = b.rejected + 1 }

-- `_wait_budget`: the timeout of the wait, where no limit is `none`, or a refusal.
abbrev pub wait_budget : (deadline : Option ℕ) → BulkheadConfig → Option (Option ℕ)
wait_budget none config = some (some config.acquire_timeout)
wait_budget (some remaining) config =
    if leb remaining 0
    then none
    else if leb remaining config.acquire_timeout
    then some none
    else some (some config.acquire_timeout)

pub data Entry : Type 0 where
  entered : Entry
  queued : (waiter : ℕ) → (timeout : Option ℕ) → Entry
  refused : Rejection → Entry

abbrev pub is_nil : List ℕ → Bool
is_nil [] = true
is_nil (w ∷ ws) = false

abbrev pub enqueue : Option (Option ℕ) → Bulkhead → Entry × Bulkhead
enqueue none b = (refused no_budget, reject b)
enqueue (some timeout) b = (
  queued (length b.futures) timeout,
  record b { waiters = b.waiters ++ length b.futures ∷ []; futures = b.futures ++ pending ∷ [] },
)

-- `acquire` up to `await waiter`.
unfoldable pub acquire : (deadline : Option ℕ) → Bulkhead → Entry × Bulkhead
acquire deadline b =
    if ltb b.in_flight b.config.limit && is_nil b.waiters
    then (entered, record b { in_flight = b.in_flight + 1 })
    else if leb b.config.max_queue (length b.waiters)
    then (refused queue_full, reject b)
    else enqueue (wait_budget deadline b.config) b

-- The loop of `_release`, over the waiters.
unfoldable pub hand_over : List ℕ → Bulkhead → Bulkhead
hand_over [] b = record b { waiters = []; in_flight = b.in_flight - 1 }
hand_over (w ∷ ws) b =
    let rest = hand_over ws b in
    if is_pending (get_elem? b.futures w)
    then record b { waiters = ws; futures = set b.futures w served }
    else rest

unfoldable pub release : Bulkhead → Bulkhead
release b = hand_over b.waiters b

-- `_discard`, and the task goes on.
unfoldable pub discard : ℕ → Bulkhead → Bulkhead
discard w b = record b {
  waiters = remove_first ℕ_discrete w b.waiters;
  futures = set b.futures w left;
}

-- What the await raises: nothing unless the future holds it, `TimeoutError`, or something else.
pub data Interruption : Type 0 where
  nothing timeout_error other : Interruption

-- Whether the task that waits for a future can go on.
abbrev pub can_wake : Option Future → Bool
can_wake (some served) = true
can_wake (some cancelled) = true
can_wake (some failed) = true
can_wake _ = false

-- `acquire` from the await on; `true` where it returns a slot.
unfoldable pub resume : Interruption → ℕ → Bulkhead → Bool × Bulkhead
resume nothing w b = (was_handed_a_slot (get_elem? b.futures w), discard w b)
resume timeout_error w b =
    if was_handed_a_slot (get_elem? b.futures w)
    then (true, discard w b)
    else (false, discard w (reject b))
resume other w b =
    (false, discard w (if was_handed_a_slot (get_elem? b.futures w) then release b else b))

-- `set_exception` on every waiter that is not done.
unfoldable pub fail_all : List ℕ → List Future → List Future
fail_all [] futures = futures
fail_all (w ∷ ws) futures =
    fail_all ws (if is_pending (get_elem? futures w) then set futures w failed else futures)

unfoldable pub reset : Bulkhead → Bulkhead
reset b = record b {
  waiters = [];
  futures = fail_all b.waiters b.futures;
  in_flight = 0;
  rejected = 0;
}

-- `BulkheadSlot`, which is `true` once released, and its `release`.
unfoldable pub release_slot : (released : Bool) → Bulkhead → Bool × Bulkhead
release_slot true b = (true, b)
release_slot false b = (true, release b)
