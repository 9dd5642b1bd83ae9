-- ===== src/Resilience/Compartment.antt =====
-- `BulkheadTransport.handle_async_request` of src/resilience/transport.py after `acquire` has
-- returned a slot, and the stream that the slot is bound to. How the wrapped transport ends is a
-- parameter.
pub mod Slot
use boilerplate_python_fasta.Prelude.{
  refl, [], ◌∷◌, none, some, zero, suc, Option, Bool, ℕ, false, if◌then◌else◌,
}
use boilerplate_python_fasta.Resilience.Bulkhead.{Bulkhead, release_slot}
use mathlib.Core.Bool.{true}

-- The wrapped transport returns a response, whose body may still be a stream to be read, or raises:
-- a `TimeoutError`, which the timer of the scope caused or not, or anything else.
pub data Inner : Type 0 where
  answered : (streams : Bool) → Inner
  timed_out : (expired : Bool) → Inner
  raised_other : Inner

pub data Sent : Type 0 where
  in_memory bound_stream : Sent
  raised_bulkhead_timeout raised_inner : Sent

-- What is raised for a `TimeoutError`; with no `execution_timeout` there is no timer.
unfoldable pub timeout_raised : (hard_timeout : Option ℕ) (expired : Bool) → Sent
timeout_raised none expired = raised_inner
timeout_raised (some t) expired = if expired then raised_bulkhead_timeout else raised_inner

-- The result, whether the slot is released, and the compartment.
unfoldable pub send : (hard_timeout : Option ℕ) → Inner → Bulkhead → Sent × (Bool × Bulkhead)
send hard_timeout (answered true) b = (bound_stream, (false, b))
send hard_timeout (answered false) b = let (s, b') = release_slot false b in (in_memory, (s, b'))
send hard_timeout (timed_out expired) b =
    let (s, b') = release_slot false b in (timeout_raised hard_timeout expired, (s, b'))
send hard_timeout raised_other b = let (s, b') = release_slot false b in (raised_inner, (s, b'))

-- `_SlotBoundStream.aclose`: whether it raises, as the stream's own `aclose` does.
unfoldable pub close_stream : (fails : Bool) → Bool × Bulkhead → Bool × (Bool × Bulkhead)
close_stream fails (released, b) = let (s, b') = release_slot released b in (fails, (s, b'))
