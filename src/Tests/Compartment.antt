-- ===== src/Tests/Compartment.antt =====
-- Runs of a call in a compartment (src/resilience/transport.py).
use boilerplate_python_fasta.Prelude.{[], ◌∷◌, some, true, false, ◌≡◌}
use boilerplate_python_fasta.Resilience.Bulkhead.{release}
use boilerplate_python_fasta.Resilience.Compartment.{answered, send}
use boilerplate_python_fasta.Resilience.Compartment.Slot.{slot_given_back, close_all}
use boilerplate_python_fasta.Tests.Bulkhead.{crowded}

slot_given_back_example :
    close_all
      (true ∷ false ∷ [])
      (send (some 5) (answered true) crowded).0
      (send (some 5) (answered true) crowded).1
    ≡ (true, release crowded)
slot_given_back_example = slot_given_back (some 5) (answered true) (true ∷ false ∷ []) crowded
