-- ===== src/Kafka.antt =====
-- The topics of src/kafka/memory.py and who reads their partitions. A key is its UTF-8 bytes, a
-- value its bytes; a record's timestamp is left out. `none` is an exception.
pub mod Log
pub mod ReadBack
pub mod Assignment
use Prim.Native.Nat.{ℕ, bit_xor, suc}
use Prim.Native.String.{String, [], ◌∷◌}
use boilerplate_python_fasta.Prelude.{
  refl, Option, String, ℕ, List, ◌+◌, ◌∷◌, get_elem?, if◌then◌else◌, [], some, length, leb, ltb,
  ◌%◌, set, ◌*◌, zero, take, none, drop, ◌++◌, String_discrete, ◌==◌, ℕ_discrete,
}
use mathlib.Core.Option.{none}

-- `_Record`
pub record Record : Type 0 where
  pub offset : ℕ
  pub key : Option (List ℕ)
  pub value : Option (List ℕ)
  pub headers : List (String × List ℕ)

-- `_Topic`; `next_partition` is where the round-robin cursor stands.
pub record Topic : Type 0 where
  pub name : String
  pub logs : List (List Record)
  pub next_partition : ℕ

abbrev pub replicate : {A : Type 0} → ℕ → A → List A
replicate zero x = []
replicate (suc n) x = x ∷ replicate n x

unfoldable pub new_topic : (name : String) (partitions : ℕ) → Option Topic
new_topic name partitions =
    if ltb partitions 1
    then none
    else some (record { name = name; logs = replicate partitions []; next_partition = 0 })

-- `_fnv1a`
unfoldable pub fnv1a_from : ℕ → List ℕ → ℕ
fnv1a_from result [] = result
fnv1a_from result (byte ∷ bytes) = fnv1a_from ((bit_xor result byte * 16777619) % 4294967296) bytes

unfoldable pub fnv1a : List ℕ → ℕ
fnv1a bytes = fnv1a_from 2166136261 bytes

-- The partition of a record, and the topic with its cursor moved if there is no key.
unfoldable pub partition_for : Option (List ℕ) → Topic → ℕ × Topic
partition_for none t =
    (t.next_partition, record t { next_partition = (t.next_partition + 1) % length t.logs })
partition_for (some key) t = (fnv1a key % length t.logs, t)

abbrev pub append_to :
    ℕ
    → Option (List Record)
    → Option (List ℕ)
    → Option (List ℕ)
    → List (String × List ℕ)
    → Topic
    → Option ((ℕ × Record) × Topic)
append_to index none key value headers t = none
append_to index (some log) key value headers t =
    let r : Record = record { offset = length log; key = key; value = value; headers = headers } in
    some ((index, r), record t { logs = set t.logs index (log ++ r ∷ []) })

-- `append`; `none` is the `IndexError` of a list index out of range.
unfoldable pub append :
    (key value : Option (List ℕ)) → List (String × List ℕ) → Topic → Option ((ℕ × Record) × Topic)
append key value headers t =
    let (index, t') = partition_for key t in
    append_to index (get_elem? t'.logs index) key value headers t'

abbrev pub read_log : (position limit : ℕ) → Option (List Record) → Option (List Record)
read_log position limit none = none
read_log position limit (some log) =
    some (if leb (length log) position then [] else take limit (drop position log))

unfoldable pub read : (partition position limit : ℕ) → Topic → Option (List Record)
read partition position limit t = read_log position limit (get_elem? t.logs partition)

pub record Partition : Type 0 where
  pub topic : String
  pub number : ℕ

pub Partition-discrete : Discrete Partition
Partition-discrete = hlevel (String_discrete, ℕ_discrete)

abbrev pub numbered : (name : String) (index count : ℕ) → List Partition
numbered name index zero = []
numbered name index (suc count) =
    record { topic = name; number = index } ∷ numbered name (index + 1) count

unfoldable pub partitions : Topic → List Partition
partitions t = numbered t.name 0 (length t.logs)

-- `partitions_for`, of topics that are sorted by name.
unfoldable pub partitions_for : List Topic → List Partition
partitions_for [] = []
partitions_for (t ∷ rest) = partitions t ++ partitions_for rest

-- What one member of `count` is assigned, from a position on.
unfoldable pub assigned : (position count index : ℕ) → List Partition → List Partition
assigned position count index [] = []
assigned position count index (p ∷ ps) =
    let rest = assigned (position + 1) count index ps in
    if position % count == index then p ∷ rest else rest

-- The loop of `_rebalance` over the members, each with the partitions of its topics.
unfoldable pub rebalance_from : (index count : ℕ) → List (List Partition) → List (List Partition)
rebalance_from index count [] = []
rebalance_from index count (ps ∷ rest) =
    assigned 0 count index ps ∷ rebalance_from (index + 1) count rest

unfoldable pub rebalance : List (List Partition) → List (List Partition)
rebalance members = rebalance_from 0 (length members) members
