-- ===== src/Tests/Bulkhead.antt =====
-- Runs of the compartment of src/resilience/bulkhead.py.
use boilerplate_python_fasta.Prelude.{refl, [], ◌∷◌, none, some, List, ◌≡◌}
use boilerplate_python_fasta.Resilience.Bulkhead.{
  release, pending, served, cancelled, timeout_error, nothing, Bulkhead,
}
use boilerplate_python_fasta.Resilience.Bulkhead.System.{
  Action, run, start, enter, stop, wake, finish, run-IsBounded, IsBounded, Action,
}
use boilerplate_python_fasta.Resilience.Bulkhead.Effects.{release_in_order}
use boilerplate_python_fasta.Resilience.Config.{BulkheadConfig}

abbrev narrow : BulkheadConfig
narrow = record { limit = 1; max_queue = 2; acquire_timeout = 5; execution_timeout = none }

-- One holder, two waiters, the first of which gives up; the slot passes to the second.
abbrev queueing : List Action
queueing =
    enter none
    ∷ enter none
    ∷ enter (some 3)
    ∷ enter none
    ∷ stop 0
    ∷ finish 0
    ∷ wake timeout_error 0
    ∷ wake nothing 1
    ∷ finish 0
    ∷ finish 0
    ∷ []

abbrev pub crowded : Bulkhead
crowded = record {
  config = narrow;
  in_flight = 1;
  waiters = 0 ∷ 1 ∷ 2 ∷ [];
  rejected = 0;
  futures = cancelled ∷ pending ∷ pending ∷ [];
}

run-IsBounded_example : IsBounded narrow (run queueing (start narrow))
run-IsBounded_example = run-IsBounded narrow queueing

release_in_order_example :
    release crowded
    ≡ record crowded { waiters = 2 ∷ []; futures = cancelled ∷ served ∷ pending ∷ [] }
release_in_order_example = release_in_order (0 ∷ []) (2 ∷ []) 1 crowded refl (refl, tt) refl
