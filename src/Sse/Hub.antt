-- ===== src/Sse/Hub.antt =====
-- `EventStreamHub` and its subscribers, of src/sse/hub.py. Subscribers are objects: the registry
-- holds numbers, and `subscribers` is what each number stands for. `asyncio.Queue.put_nowait`
-- raises `QueueFull` where the queue has no room, which is `none`.
pub mod Registry
pub mod Members
pub mod Runs
pub mod Calls
pub mod Stream
pub mod Follow
pub mod Delivered
pub mod Received
use boilerplate_python_fasta.Prelude.Dict
use Prim.Native.String.{String, ◌∷◌}
use Prim.Native.Nat.{ℕ}
use boilerplate_python_fasta.Prelude.Dict.{Dict, or_empty}
use boilerplate_python_fasta.Sse.Event.{ServerSentEvent}
use boilerplate_python_fasta.Prelude.{
  String, Option, List, ℕ, some, Bool, if◌then◌else◌, option_map, String_discrete, ◌∷◌, ◌++◌, ◌==◌,
  [], none, length, false, ltb, true, leb, remove_first, ◌+◌, ℕ_discrete,
}
use boilerplate_python_fasta.Prelude.Text.{codes}
use mathlib.Core.Bool.{true}
use mathlib.Core.Option.{none}

-- `_Envelope`
pub data Envelope : Type 0 where
  sent : ServerSentEvent → Envelope
  overflowed closed : Envelope

-- `_Subscriber`
pub record Subscriber : Type 0 where
  pub topic : String
  pub buffer : ℕ
  pub queue : List Envelope
  pub terminated : Bool

unfoldable pub put_nowait : Envelope → Subscriber → Option Subscriber
put_nowait e s =
    if ltb (length s.queue) (s.buffer + 1)
    then some (record s { queue = s.queue ++ e ∷ [] })
    else none

-- Whether the event was buffered, and the subscriber that is left.
unfoldable pub offer : ServerSentEvent → Subscriber → Option (Bool × Subscriber)
offer e s =
    if s.terminated
    then some (false, s)
    else if leb s.buffer (length s.queue)
    then option_map (λ t. (false, t)) (put_nowait overflowed (record s { terminated = true }))
    else option_map (λ t. (true, t)) (put_nowait (sent e) s)

unfoldable pub close_subscriber : Subscriber → Option Subscriber
close_subscriber s =
    if s.terminated then some s else put_nowait closed (record s { terminated = true })

abbrev pub overflow_event : ServerSentEvent
overflow_event = record {
  payload =
      codes
        "This stream fell too far behind and was closed. Reconnect and refetch current state; events since the last one delivered were not buffered.";
  event = some (codes "overflow");
  id = none;
  retry = none;
}

-- One round of `events`: it waits, it yields an event, it yields its last event and ends, or it
-- ends.
pub data Round : Type 0 where
  waits : Round
  yields : ServerSentEvent → Round
  yields_last : ServerSentEvent → Round
  ends : Round

abbrev pub opened : Envelope → Round
opened (sent e) = yields e
opened overflowed = yields_last overflow_event
opened closed = ends

abbrev pub next_from : List Envelope → Subscriber → Round × Subscriber
next_from [] s = (waits, s)
next_from (e ∷ es) s = (opened e, record s { queue = es })

unfoldable pub next : Subscriber → Round × Subscriber
next s = next_from s.queue s

pub record Hub : Type 0 where
  pub buffer : ℕ
  pub topics : Dict String (List ℕ)
  pub subscribers : ℕ → Subscriber
  pub created : ℕ

-- `none` is the `ValueError` of `__init__`.
unfoldable pub new_hub : (buffer : ℕ) → Option Hub
new_hub buffer =
    if ltb buffer 1
    then none
    else some (record {
      buffer = buffer;
      topics = [];
      subscribers = λ i. record { topic = ""; buffer = buffer; queue = []; terminated = false };
      created = 0;
    })

abbrev pub members : String → Hub → List ℕ
members topic h = or_empty (Dict.get String_discrete topic h.topics)

abbrev pub set_subscriber : ℕ → Subscriber → Hub → Hub
set_subscriber i s h = record h { subscribers = λ j. if j == i then s else h.subscribers j }

-- The entry of `subscribe`; the number stands for the stream.
unfoldable pub subscribe : String → Hub → ℕ × Hub
subscribe topic h = (
  h.created,
  record h {
    topics = Dict.put String_discrete topic (members topic h ++ h.created ∷ []) h.topics;
    subscribers = λ j.
        if j == h.created
        then record { topic = topic; buffer = h.buffer; queue = []; terminated = false }
        else h.subscribers j;
    created = h.created + 1;
  },
)

abbrev pub keep_members : String → List ℕ → Dict String (List ℕ) → Dict String (List ℕ)
keep_members topic [] d = Dict.remove String_discrete topic d
keep_members topic (i ∷ is) d = Dict.put String_discrete topic (i ∷ is) d

abbrev pub dropped : ℕ → Option (List ℕ) → Hub → Hub
dropped i none h = h
dropped i (some is) h = record h {
  topics = keep_members (h.subscribers i).topic (remove_first ℕ_discrete i is) h.topics;
}

-- `_drop`, which is also the exit of `subscribe`.
unfoldable pub drop_subscriber : ℕ → Hub → Hub
drop_subscriber i h = dropped i (Dict.get String_discrete (h.subscribers i).topic h.topics) h

abbrev pub offered : ℕ → Bool → Subscriber → Hub → ℕ × Hub
offered i true s h = (1, set_subscriber i s h)
offered i false s h = (0, drop_subscriber i (set_subscriber i s h))

-- The loop of `publish` over the copy of the subscribers.
unfoldable pub publish_loop : ServerSentEvent → List ℕ → Hub → Option (ℕ × Hub)
publish_loop e [] h = some (0, h)
publish_loop e (i ∷ is) h = elim (offer e (h.subscribers i)) [
  | none ↦ none
  | some (took, s) ↦
      option_map (λ r. ((offered i took s h).0 + r.0, r.1))
        (publish_loop e is (offered i took s h).1)
]

unfoldable pub publish : String → ServerSentEvent → Hub → Option (ℕ × Hub)
publish topic e h = publish_loop e (members topic h) h

abbrev pub all_members : Dict String (List ℕ) → List ℕ
all_members [] = []
all_members ((topic, is) ∷ rest) = is ++ all_members rest

abbrev pub targets : Option String → Hub → List ℕ
targets none h = all_members h.topics
targets (some topic) h = members topic h

unfoldable pub close_loop : List ℕ → Hub → Option Hub
close_loop [] h = some h
close_loop (i ∷ is) h = elim (close_subscriber (h.subscribers i)) [
  | none ↦ none
  | some s ↦ close_loop is (drop_subscriber i (set_subscriber i s h))
]

unfoldable pub close : Option String → Hub → Option (ℕ × Hub)
close topic h = option_map (λ h'. (length (targets topic h), h')) (close_loop (targets topic h) h)

-- A stream takes what is next in its queue.
unfoldable pub read_stream : ℕ → Hub → Round × Hub
read_stream i h = let (r, s) = next (h.subscribers i) in (r, set_subscriber i s h)
