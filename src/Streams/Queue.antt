-- ===== src/Streams/Queue.antt =====
-- A group over a stream that is not trimmed (src/redis_streams/memory.py), as a queue of fields.
use boilerplate_python_fasta.Prelude.{
  ℕ, Option, List, ◌∷◌, String, map, some, none, drop, ◌++◌, ◌≡◌, take, [], Bool-cases, ap, zero,
  inl, inr, refl, suc,
}
use boilerplate_python_fasta.Streams.{
  StreamEntryId, Stream, Group, Fields, StreamMessage, append, is_before, message, PendingEntry,
  read_now, ack, claim,
}
use boilerplate_python_fasta.Prelude.Dict.{Dict}
use boilerplate_python_fasta.Streams.Ids.{
  IsAscending, Before, AllBefore, UpTo, UpTo-Before, UpTo-refl, Before-UpTo,
}
use boilerplate_python_fasta.Streams.Delivery.{waiting, AllUpTo}

pub data Action : Type 0 where
  publish : (now : ℕ) → Fields → Action
  fetch : (consumer : String) (now count : ℕ) → Action
  acknowledge : List StreamEntryId → Action
  reclaim : (consumer : String) (now min_idle : ℕ) → List PendingEntry → Action

pub data Reply : Type 0 where
  rejected : Reply
  published : Reply
  received : List Fields → Reply
  handled : Reply

abbrev pub publish_reply :
    Option (StreamEntryId × Stream) → Stream × Group → Reply × (Stream × Group)
publish_reply none σ = (rejected, σ)
publish_reply (some (id, s)) σ = (published, (s, σ.1))

abbrev pub fetch_reply :
    Option (List StreamMessage × Group) → Stream × Group → Reply × (Stream × Group)
fetch_reply none σ = (rejected, σ)
fetch_reply (some (messages, g)) σ = (received (map (λ m. m.fields) messages), (σ.0, g))

unfoldable pub step : Action → Stream × Group → Reply × (Stream × Group)
step (publish now fields) σ = publish_reply (append now fields 0 σ.0) σ
step (fetch consumer now count) σ = fetch_reply (read_now consumer now count σ.0 σ.1) σ
step (acknowledge ids) σ = (handled, (σ.0, (ack ids σ.1).1))
step (reclaim consumer now min_idle entries) σ =
    (handled, (σ.0, (claim consumer now min_idle entries σ.0 σ.1).1))

unfoldable pub run : List Action → Stream × Group → List Reply × (Stream × Group)
run [] σ = ([], σ)
run (a ∷ as') σ = let (r, σ') = step a σ in let (rs, σ'') = run as' σ' in (r ∷ rs, σ'')

-- The queue: what it answers, and the queue that is left.
unfoldable pub queue_step : Action → List Fields → Reply × List Fields
queue_step (publish now []) q = (rejected, q)
queue_step (publish now (f ∷ fs)) q = (published, q ++ (f ∷ fs) ∷ [])
queue_step (fetch consumer now zero) q = (rejected, q)
queue_step (fetch consumer now (suc n)) q = (received (take (suc n) q), drop (suc n) q)
queue_step (acknowledge ids) q = (handled, q)
queue_step (reclaim consumer now min_idle entries) q = (handled, q)

unfoldable pub queue_run : List Action → List Fields → List Reply × List Fields
queue_run [] q = ([], q)
queue_run (a ∷ as') q =
    let (r, q') = queue_step a q in let (rs, q'') = queue_run as' q' in (r ∷ rs, q'')

-- What waits for the group, oldest first.
abbrev pub backlog : Stream × Group → List Fields
backlog σ = map (λ e. e.1) (waiting σ.1.last_delivered σ.0.entries)

-- The entries ascend up to the last id, which the group has not passed.
pub record IsValid (σ : Stream × Group) : Type 0 where
  pub ascending : IsAscending (record { ms = 0; seq = 0 }) σ.0.entries
  pub newest : AllUpTo σ.0.last_id σ.0.entries
  pub delivered : UpTo σ.1.last_delivered σ.0.last_id

pub AllBefore-AllUpTo :
    (a b : StreamEntryId) (d : Dict StreamEntryId Fields) → Before a b → AllUpTo a d → AllBefore b d
AllBefore-AllUpTo a b [] h u = tt
AllBefore-AllUpTo a b (e ∷ d) h u = (UpTo-Before e.0 a b u.0 h, AllBefore-AllUpTo a b d h u.1)

pub AllUpTo-append :
    (b : StreamEntryId) (f : Fields) (d : Dict StreamEntryId Fields)
    → AllBefore b d
    → AllUpTo b (d ++ (b, f) ∷ [])
AllUpTo-append b f [] h = (UpTo-refl b, tt)
AllUpTo-append b f (e ∷ d) h = (Before-UpTo e.0 b h.0, AllUpTo-append b f d h.1)

pub waiting-append :
    (last b : StreamEntryId) (f : Fields) (d : Dict StreamEntryId Fields)
    → Before last b
    → waiting last (d ++ (b, f) ∷ []) ≡ waiting last d ++ (b, f) ∷ []
waiting-append last b f [] h = rw h refl
waiting-append last b f (e ∷ d) h = elim (Bool-cases (is_before last e.0)) [
  | inl k ↦ rw k (ap (λ t. e ∷ t) (waiting-append last b f d h))
  | inr k ↦ rw k (waiting-append last b f d h)
]

pub fields_append :
    (d : Dict StreamEntryId Fields) (b : StreamEntryId) (f : Fields)
    → map (λ e. e.1) (d ++ (b, f) ∷ []) ≡ map (λ e. e.1) d ++ f ∷ []
fields_append [] b f = refl
fields_append (e ∷ d) b f = ap (λ t. e.1 ∷ t) (fields_append d b f)

pub fields_take :
    (n : ℕ) (d : Dict StreamEntryId Fields)
    → map (λ m. m.fields) (map message (take n d)) ≡ take n (map (λ e. e.1) d)
fields_take zero d = refl
fields_take (suc n) [] = refl
fields_take (suc n) (e ∷ d) = ap (λ t. e.1 ∷ t) (fields_take n d)

pub fields_drop :
    (n : ℕ) (d : Dict StreamEntryId Fields) → map (λ e. e.1) (drop n d) ≡ drop n (map (λ e. e.1) d)
fields_drop zero d = refl
fields_drop (suc n) [] = refl
fields_drop (suc n) (e ∷ d) = fields_drop n d
