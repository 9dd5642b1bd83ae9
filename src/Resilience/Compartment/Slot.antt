-- ===== src/Resilience/Compartment/Slot.antt =====
-- The slot of a call in a compartment (src/resilience/transport.py, bulkhead.py).
use boilerplate_python_fasta.Prelude.{
  refl, [], ◌∷◌, Option, List, Bool, ℕ, true, ◌≡◌, false, if◌then◌else◌,
}
use boilerplate_python_fasta.Resilience.Bulkhead.{Bulkhead, release_slot, release}
use boilerplate_python_fasta.Resilience.Compartment.{
  Inner, Sent, send, close_stream, bound_stream, answered, timed_out, raised_other, in_memory,
  raised_bulkhead_timeout, timeout_raised, raised_inner,
}

-- The calls of `aclose` on a response, each of which may raise. A response in memory has no stream
-- that the slot is bound to.
unfoldable pub close_all : List Bool → Sent → Bool × Bulkhead → Bool × Bulkhead
close_all [] sent r = r
close_all (fails ∷ rest) bound_stream r = close_all rest bound_stream (close_stream fails r).1
close_all (fails ∷ rest) in_memory r = r
close_all (fails ∷ rest) raised_bulkhead_timeout r = r
close_all (fails ∷ rest) raised_inner r = r

abbrev pub is_open_stream : Inner → List Bool → Bool
is_open_stream (answered true) [] = true
is_open_stream _ _ = false

closed_again :
    (closes : List Bool) (sent : Sent) (b : Bulkhead) → close_all closes sent (true, b) ≡ (true, b)
unfolding close_all close_stream release_slot
closed_again [] sent b = refl
closed_again (fails ∷ rest) bound_stream b = closed_again rest bound_stream b
closed_again (fails ∷ rest) in_memory b = refl
closed_again (fails ∷ rest) raised_bulkhead_timeout b = refl
closed_again (fails ∷ rest) raised_inner b = refl

-- However the call ends and however often its stream is closed, failing or not, the compartment
-- gets the slot back exactly once; it keeps it only while the body is a stream that nobody closed.
pub slot_given_back :
    (hard_timeout : Option ℕ) (inner : Inner) (closes : List Bool) (b : Bulkhead)
    → let (sent, r) = send hard_timeout inner b in
      close_all closes sent r
      ≡ (if is_open_stream inner closes then (false, b) else (true, release b))
unfolding send close_all close_stream release_slot
slot_given_back hard_timeout (answered true) [] b = refl
slot_given_back hard_timeout (answered true) (fails ∷ rest) b =
    closed_again rest bound_stream (release b)
slot_given_back hard_timeout (answered false) closes b = closed_again closes in_memory (release b)
slot_given_back hard_timeout (timed_out expired) closes b =
    closed_again closes (timeout_raised hard_timeout expired) (release b)
slot_given_back hard_timeout raised_other closes b = closed_again closes raised_inner (release b)
