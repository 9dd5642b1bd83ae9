-- ===== src/Tests/Streams.antt =====
-- Runs of src/redis_streams/memory.py.
use Prim.Native.String.{String, []}
use boilerplate_python_fasta.Prelude.{refl, String, List, ◌∷◌, [], ◌≡◌}
use boilerplate_python_fasta.Streams.{Stream, Fields, Group, new_stream}
use boilerplate_python_fasta.Streams.Queue.{
  queue_run, Action, queue_step, run, backlog, publish, fetch, reclaim, published, acknowledge,
  rejected, received, handled,
}
use boilerplate_python_fasta.Streams.Refinement.{run-queue_run, start-IsValid}

abbrev job : String → Fields
job name = (name, 1 ∷ []) ∷ []

abbrev started : Stream × Group
started = (new_stream, record { last_delivered = new_stream.last_id; pending = [] })

abbrev actions : List Action
actions =
    publish 5 (job "a")
    ∷ publish 5 (job "b")
    ∷ publish 6 []
    ∷ fetch "w" 6 1
    ∷ reclaim "v" 99 10 (
        record { id = record { ms = 5; seq = 0 }; consumer = "w"; idle = 93; delivery_count = 1 }
        ∷ [])
    ∷ acknowledge (record { ms = 5; seq = 0 } ∷ [])
    ∷ fetch "v" 7 9
    ∷ fetch "v" 7 0
    ∷ []

answers : queue_run actions [] ≡ (
  published
      ∷ published
      ∷ rejected
      ∷ received (job "a" ∷ [])
      ∷ handled
      ∷ handled
      ∷ received (job "b" ∷ [])
      ∷ rejected
      ∷ [],
  [],
)
unfolding queue_run queue_step
answers = refl

run-queue_run_example :
    ((run actions started).0, backlog (run actions started).1) ≡ queue_run actions (backlog started)
run-queue_run_example = run-queue_run actions started start-IsValid
