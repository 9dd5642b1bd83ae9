-- ===== src/Tests/Kafka.antt =====
-- Runs of src/kafka/memory.py.
use boilerplate_python_fasta.Kafka.{
  fnv1a, fnv1a_from, Topic, Partition, Partition-discrete, rebalance, rebalance_from, assigned,
  replicate,
}
use boilerplate_python_fasta.Kafka.Log.{Sent}
use boilerplate_python_fasta.Kafka.ReadBack.{ReadsBack, append-ReadsBack}
use boilerplate_python_fasta.Kafka.Assignment.{total-rebalance}
use boilerplate_python_fasta.Prelude.Lists.{count, total}
use boilerplate_python_fasta.Prelude.{refl, ℕ, String, [], ◌∷◌, ◌≡◌, some, none, arith}

abbrev orders : Topic
orders = record { name = "orders"; logs = [] ∷ [] ∷ []; next_partition = 0 }

abbrev first_sent : Sent
first_sent = ((some (b'k' ∷ []), some (b'1' ∷ [])), [])

append-ReadsBack_example : ReadsBack first_sent (((none, some []), []) ∷ first_sent ∷ []) 3 orders
append-ReadsBack_example =
    append-ReadsBack first_sent (((none, some []), []) ∷ first_sent ∷ []) 3 orders (omega arith)

abbrev place : String → ℕ → Partition
place topic number = record { topic = topic; number = number }

total-rebalance_example :
    total
      (count Partition-discrete (place "a" 1))
      (rebalance (replicate 2 (place "a" 0 ∷ place "a" 1 ∷ place "a" 2 ∷ [])))
    ≡ count Partition-discrete (place "a" 1) (place "a" 0 ∷ place "a" 1 ∷ place "a" 2 ∷ [])
total-rebalance_example =
    total-rebalance (place "a" 1) 2 (place "a" 0 ∷ place "a" 1 ∷ place "a" 2 ∷ []) (omega arith)

-- The members read different topics: nobody reads the partition of the second.
unread : rebalance ((place "a" 0 ∷ []) ∷ (place "b" 0 ∷ []) ∷ []) ≡ (place "a" 0 ∷ []) ∷ [] ∷ []
unfolding rebalance rebalance_from assigned
unread = refl

-- Known values of the 32-bit FNV-1a hash.
fnv1a_nothing : fnv1a [] ≡ 2166136261
unfolding fnv1a fnv1a_from
fnv1a_nothing = refl

fnv1a_foobar : fnv1a (b'f' ∷ b'o' ∷ b'o' ∷ b'b' ∷ b'a' ∷ b'r' ∷ []) ≡ 3214735720
unfolding fnv1a fnv1a_from
fnv1a_foobar = refl
