-- ===== src/Streams.antt =====
-- `InMemoryStreamServer` and `InMemoryStreamGroup` of src/redis_streams/memory.py, and the values of
-- base.py. The clock does not go back under a pending entry. The waiters, which only wake a blocked
-- `read`, are left out: a `read` that blocks is its two calls of `_read_now`. A field's value is its
-- bytes.
pub mod Ids
pub mod Delivery
pub mod Queue
pub mod Refinement
use boilerplate_python_fasta.Prelude.Dict
use boilerplate_python_fasta.Prelude.{
  refl, [], ◌∷◌, none, some, zero, suc, String, map, String_discrete, Bool, ℕ_discrete, Option,
  List, ℕ, false, ◌+◌, if◌then◌else◌, take, leb, total, true, ltb, ◌-◌, not, ◌==◌, ite, ◌||◌,
  length, ◌&&◌,
}
use boilerplate_python_fasta.Prelude.Dict.{Dict}

pub record StreamEntryId : Type 0 where
  pub ms : ℕ
  pub seq : ℕ

-- `order=True`: by `ms`, then by `seq`.
unfoldable pub is_before : StreamEntryId → StreamEntryId → Bool
is_before a b = ltb a.ms b.ms || (a.ms == b.ms && ltb a.seq b.seq)

pub StreamEntryId-discrete : Discrete StreamEntryId
StreamEntryId-discrete = hlevel ℕ_discrete

abbrev pub Fields : Type 0
Fields = List (String × List ℕ)

pub record StreamMessage : Type 0 where
  pub id : StreamEntryId
  pub fields : Fields
  pub delivery_count : ℕ
  pub claimed : Bool

pub record PendingEntry : Type 0 where
  pub id : StreamEntryId
  pub consumer : String
  pub idle : ℕ
  pub delivery_count : ℕ

-- `_Pending`
pub record Pending : Type 0 where
  pub consumer : String
  pub delivered_at : ℕ
  pub delivery_count : ℕ

-- `_Group`
pub record Group : Type 0 where
  pub last_delivered : StreamEntryId
  pub pending : Dict StreamEntryId Pending

-- `_Stream`
pub record Stream : Type 0 where
  pub entries : Dict StreamEntryId Fields
  pub groups : Dict String Group
  pub last_id : StreamEntryId

abbrev pub new_stream : Stream
new_stream = record { entries = []; groups = []; last_id = record { ms = 0; seq = 0 } }

-- `sorted` on a dict's items, by the id.
abbrev pub insert_sorted :
    {A : Type 0} → StreamEntryId × A → Dict StreamEntryId A → Dict StreamEntryId A
insert_sorted e [] = e ∷ []
insert_sorted e (f ∷ rest) = if is_before f.0 e.0 then f ∷ insert_sorted e rest else e ∷ f ∷ rest

unfoldable pub sorted : {A : Type 0} → Dict StreamEntryId A → Dict StreamEntryId A
sorted [] = []
sorted (e ∷ rest) = insert_sorted e (sorted rest)

-- `_next_id`; `now` is the clock in milliseconds.
unfoldable pub next_id : (now : ℕ) → Stream → StreamEntryId
next_id now s =
    if ltb s.last_id.ms now
    then record { ms = now; seq = 0 }
    else record { ms = s.last_id.ms; seq = s.last_id.seq + 1 }

-- `del` of every key.
abbrev pub remove_all :
    {A : Type 0} → List StreamEntryId → Dict StreamEntryId A → Dict StreamEntryId A
remove_all [] d = d
remove_all (k ∷ ks) d = remove_all ks (Dict.remove StreamEntryId-discrete k d)

unfoldable pub trim : (maxlen : ℕ) → Stream → Stream
trim maxlen s = record s {
  entries =
      remove_all (map (λ e. e.0) (take (length s.entries - maxlen) (sorted s.entries))) s.entries;
}

abbrev is_empty : Fields → Bool
is_empty [] = true
is_empty (f ∷ fs) = false

-- `append`; `none` is the `ValueError` of `validate_fields`.
unfoldable pub append : (now : ℕ) → Fields → (maxlen : ℕ) → Stream → Option (StreamEntryId × Stream)
append now fields maxlen s =
    let id = next_id now s in
    let s' = record s {
      entries = Dict.put StreamEntryId-discrete id fields s.entries;
      last_id = id;
    } in
    if is_empty fields then none else some (id, if maxlen == 0 then s' else trim maxlen s')

unfoldable pub delete : StreamEntryId → Stream → ℕ × Stream
delete id s = (
  elim (Dict.get StreamEntryId-discrete id s.entries) [ none ↦ 0 | some f ↦ 1 ],
  record s { entries = Dict.remove StreamEntryId-discrete id s.entries },
)

-- `start`: the group is created at the end of the stream, once.
unfoldable pub start : (group : String) → Stream → Stream
start group s = elim (Dict.get String_discrete group s.groups) [
  | some g ↦ s
  | none ↦ record s {
    groups =
        Dict.put String_discrete group (record { last_delivered = s.last_id; pending = [] })
          s.groups;
  }
]

-- One round of the loop of `_read_now`.
abbrev pub deliver : (consumer : String) (now : ℕ) → StreamEntryId → Group → Group
deliver consumer now id g = record {
  last_delivered = id;
  pending =
      Dict.put StreamEntryId-discrete id
        (record { consumer = consumer; delivered_at = now; delivery_count = 1 }) g.pending;
}

abbrev pub message : StreamEntryId × Fields → StreamMessage
message (id, fields) = record { id = id; fields = fields; delivery_count = 1; claimed = false }

-- The loop of `_read_now` over the sorted entries, with room for `left` messages.
unfoldable pub read_loop :
    (consumer : String) (now left : ℕ)
    → Dict StreamEntryId Fields
    → Group
    → List StreamMessage × Group
read_loop consumer now left [] g = ([], g)
read_loop consumer now left (e ∷ rest) g = elim (is_before g.last_delivered e.0) [
  | false ↦ read_loop consumer now left rest g
  | true ↦ elim (leb left 1) [
    | true ↦ (message e ∷ [], deliver consumer now e.0 g)
    | false ↦
        let (messages, g') = read_loop consumer now (left - 1) rest (deliver consumer now e.0 g) in
        (message e ∷ messages, g')
  ]
]

-- `_read_now` of a started group; `none` is the `ValueError` of `read` for a count below 1.
unfoldable pub read_now :
    (consumer : String) (now count : ℕ) → Stream → Group → Option (List StreamMessage × Group)
read_now consumer now count s g =
    if ltb count 1 then none else some (read_loop consumer now count (sorted s.entries) g)

-- The loop of `stalled`.
unfoldable pub stalled_loop :
    (now min_idle left : ℕ) → Option StreamEntryId → Dict StreamEntryId Pending → List PendingEntry
stalled_loop now min_idle left start [] = []
stalled_loop now min_idle left start ((id, row) ∷ rest) =
    let found : PendingEntry = record {
      id = id;
      consumer = row.consumer;
      idle = now - row.delivered_at;
      delivery_count = row.delivery_count;
    } in
    elim ((elim start [ none ↦ false | some s ↦ not (is_before s id) ])
      || ltb (now - row.delivered_at) min_idle) [
        | true ↦ stalled_loop now min_idle left start rest
        | false ↦ elim (leb left 1) [
          | true ↦ found ∷ []
          | false ↦ found ∷ stalled_loop now min_idle (left - 1) start rest
        ]
      ]

unfoldable pub stalled :
    (now min_idle count : ℕ) → Option StreamEntryId → Group → Option (List PendingEntry)
stalled now min_idle count start g =
    if ltb count 1 then none else some (stalled_loop now min_idle count start (sorted g.pending))

-- What `claim` does with one entry.
pub data Claim : Type 0 where
  claimed_message : StreamMessage → Claim
  missing : StreamEntryId → Claim

abbrev pub claim_row :
    (consumer : String) (now : ℕ) → StreamEntryId → Pending → Option Fields → Group → Claim × Group
claim_row consumer now id row none g =
    (missing id, record g { pending = Dict.remove StreamEntryId-discrete id g.pending })
claim_row consumer now id row (some fields) g = (
  claimed_message (record {
    id = id;
    fields = fields;
    delivery_count = row.delivery_count + 1;
    claimed = true;
  }),
  record g {
    pending =
        Dict.put StreamEntryId-discrete id
          (record {
            consumer = consumer;
            delivered_at = now;
            delivery_count = row.delivery_count + 1;
          })
          g.pending;
  },
)

abbrev pub claim_found :
    (consumer : String) (now min_idle : ℕ)
    → StreamEntryId
    → Option Pending
    → Stream
    → Group
    → Claim × Group
claim_found consumer now min_idle id none s g = (missing id, g)
claim_found consumer now min_idle id (some row) s g =
    if ltb (now - row.delivered_at) min_idle
    then (missing id, g)
    else claim_row consumer now id row (Dict.get StreamEntryId-discrete id s.entries) g

unfoldable pub claim :
    (consumer : String) (now min_idle : ℕ) → List PendingEntry → Stream → Group → List Claim × Group
claim consumer now min_idle [] s g = ([], g)
claim consumer now min_idle (e ∷ rest) s g =
    let (c, g') =
      claim_found consumer now min_idle e.id (Dict.get StreamEntryId-discrete e.id g.pending) s g in
    let (cs, g'') = claim consumer now min_idle rest s g' in (c ∷ cs, g'')

unfoldable pub ack : List StreamEntryId → Group → ℕ × Group
ack [] g = (0, g)
ack (id ∷ ids) g =
    let (n, g') =
      ack ids (record g { pending = Dict.remove StreamEntryId-discrete id g.pending }) in
    ((elim (Dict.get StreamEntryId-discrete id g.pending) [ none ↦ 0 | some row ↦ 1 ]) + n, g')

abbrev of_consumer : Option String → Pending → Bool
of_consumer none row = true
of_consumer (some name) row = ite (String_discrete row.consumer name) true false

unfoldable pub pending_count : Option String → Group → ℕ
pending_count consumer g = total (λ e. if of_consumer consumer e.1 then 1 else 0) g.pending
