-- ===== src/Streams/Refinement.antt =====
-- A group over a stream that is not trimmed behaves as a queue (src/redis_streams/memory.py).
use boilerplate_python_fasta.Prelude.Dict
use boilerplate_python_fasta.Prelude.{
  ℕ, String, arith, false, false, refl, zero, suc, none, inl, inr, List, ◌++◌, ◌∷◌, [], ◌≡◌, ap,
  subst, some, map, sym, ◌∙◌, Option, Bool-cases, ltb, ◌-◌,
}
use boilerplate_python_fasta.Streams.{
  is_before, StreamEntryId, append, Fields, Stream, Group, next_id, StreamEntryId-discrete, Pending,
  new_stream, claim, read_now, ack, claim_row, claim_found, PendingEntry, read_loop,
}
use boilerplate_python_fasta.Streams.Queue.{
  step, Action, queue_step, IsValid, Reply, publish, AllBefore-AllUpTo, backlog, publish_reply,
  waiting-append, AllUpTo-append, fields_append, fields_take, fields_drop, handled, run, fetch,
  acknowledge, fetch_reply, queue_run, run, run, reclaim, received,
}
use boilerplate_python_fasta.Streams.Ids.{
  UpTo, AllBefore, Before-UpTo, next_id-Before, put-last, IsAscending-append, UpTo-Before,
  UpTo-trans, UpTo-refl, sorted-IsAscending, IsAscending,
}
use boilerplate_python_fasta.Streams.Delivery.{AllUpTo, waiting, read_loop-Takes, read_loop-AllUpTo}

next_id-UpTo : (now : ℕ) (s : Stream) → UpTo s.last_id (next_id now s)
next_id-UpTo now s = Before-UpTo s.last_id (next_id now s) (next_id-Before now s)

-- A step answers as the queue does, from the queue that stands for the state to the queue that
-- stands for the next state, which is valid again.
record Agrees (a : Action) (σ : Stream × Group) (r : Reply × (Stream × Group)) : Type 0 where
  reply : r.0 ≡ (queue_step a (backlog σ)).0
  left : backlog r.1 ≡ (queue_step a (backlog σ)).1
  valid : IsValid r.1

pub entries_after :
    (id : StreamEntryId) (fields : Fields) (s : Stream)
    → AllBefore id s.entries
    → Dict.put StreamEntryId-discrete id fields s.entries ≡ s.entries ++ (id, fields) ∷ []
entries_after id fields s h = put-last id fields s.entries h

zero_UpTo : (a : StreamEntryId) → UpTo (record { ms = 0; seq = 0 }) a
unfolding is_before
zero_UpTo a = ground arith

-- The stream with one more entry.
extended : (now : ℕ) → Fields → Stream → Stream
extended now fields s = record s {
  entries = s.entries ++ (next_id now s, fields) ∷ [];
  last_id = next_id now s;
}

extended-IsValid :
    (now : ℕ) (fields : Fields) (σ : Stream × Group)
    → IsValid σ
    → IsValid (extended now fields σ.0, σ.1)
unfolding extended
extended-IsValid now fields (s, g) v =
    let b = AllBefore-AllUpTo s.last_id (next_id now s) s.entries (next_id-Before now s) v.newest in
    record {
      ascending =
          IsAscending-append _ (next_id now s) fields s.entries
            (UpTo-Before _ s.last_id (next_id now s) (zero_UpTo s.last_id) (next_id-Before now s))
            v.ascending b;
      newest = AllUpTo-append (next_id now s) fields s.entries b;
      delivered = UpTo-trans g.last_delivered s.last_id _ v.delivered (next_id-UpTo now s);
    }

backlog-extended :
    (now : ℕ) (fields : Fields) (σ : Stream × Group)
    → IsValid σ
    → backlog (extended now fields σ.0, σ.1) ≡ backlog σ ++ fields ∷ []
unfolding extended
backlog-extended now fields (s, g) v =
    ap (map (λ e. e.1)) (
      waiting-append g.last_delivered (next_id now s) fields s.entries
        (UpTo-Before g.last_delivered s.last_id _ v.delivered (next_id-Before now s)))
    ∙ fields_append (waiting g.last_delivered s.entries) (next_id now s) fields

append-extended :
    (now : ℕ) (f : String × List ℕ) (fs : Fields) (s : Stream)
    → AllUpTo s.last_id s.entries
    → append now (f ∷ fs) 0 s ≡ some (next_id now s, extended now (f ∷ fs) s)
unfolding append extended
append-extended now f fs s u =
    ap (λ es. some (next_id now s, record s { entries = es; last_id = next_id now s }))
      (put-last (next_id now s) (f ∷ fs) s.entries
        (AllBefore-AllUpTo s.last_id (next_id now s) s.entries (next_id-Before now s) u))

publish-Agrees :
    (now : ℕ) (fields : Fields) (σ : Stream × Group)
    → IsValid σ
    → Agrees (publish now fields) σ (step (publish now fields) σ)
unfolding step queue_step append
publish-Agrees now [] σ v = record { reply = refl; left = refl; valid = v }
publish-Agrees now (f ∷ fs) σ v =
    subst (λ o. Agrees (publish now (f ∷ fs)) σ (publish_reply o σ))
      (sym (append-extended now f fs σ.0 v.newest))
      (record {
        reply = refl;
        left = backlog-extended now (f ∷ fs) σ v;
        valid = extended-IsValid now (f ∷ fs) σ v;
      })

not_below_one : (n : ℕ) → ltb (suc n) 1 ≡ false
not_below_one n = ground arith

read_now-IsAscending :
    (consumer : String) (now n : ℕ) (s : Stream) (g : Group)
    → IsAscending (record { ms = 0; seq = 0 }) s.entries
    → read_now consumer now (suc n) s g ≡ some (read_loop consumer now (suc n) s.entries g)
unfolding read_now
read_now-IsAscending consumer now n s g a =
    rw (not_below_one n)
      (ap (λ d. some (read_loop consumer now (suc n) d g)) (sorted-IsAscending _ s.entries a))

fetch-Agrees :
    (consumer : String) (now count : ℕ) (σ : Stream × Group)
    → IsValid σ
    → Agrees (fetch consumer now count) σ (step (fetch consumer now count) σ)
unfolding step queue_step read_now
fetch-Agrees consumer now zero σ v = record { reply = refl; left = refl; valid = v }
fetch-Agrees consumer now (suc n) (s, g) v =
    subst (λ o. Agrees (fetch consumer now (suc n)) (s, g) (fetch_reply o (s, g)))
      (sym (read_now-IsAscending consumer now n s g v.ascending))
      (let t = read_loop-Takes consumer now n _ s.entries g v.ascending in
        record {
          reply =
              ap (λ ms. received (map (λ m. m.fields) ms)) t.taken
              ∙ ap received (fields_take (suc n) (waiting g.last_delivered s.entries));
          left =
              ap (map (λ e. e.1)) t.rest ∙ fields_drop (suc n) (waiting g.last_delivered s.entries);
          valid = record {
            ascending = v.ascending;
            newest = v.newest;
            delivered = read_loop-AllUpTo consumer now n s.last_id s.entries g v.newest v.delivered;
          };
        })

-- A group that reads no entry keeps its backlog.
same_backlog :
    (a : Action) (s : Stream) (g g' : Group)
    → g'.last_delivered ≡ g.last_delivered
    → IsValid (s, g)
    → queue_step a (backlog (s, g)) ≡ (handled, backlog (s, g))
    → Agrees a (s, g) (handled, (s, g'))
same_backlog a s g g' e v q = record {
  reply = sym (ap (λ r. r.0) q);
  left = ap (λ l. map (λ e. e.1) (waiting l s.entries)) e ∙ sym (ap (λ r. r.1) q);
  valid = record {
    ascending = v.ascending;
    newest = v.newest;
    delivered = subst (λ l. UpTo l s.last_id) (sym e) v.delivered;
  };
}

ack_last : (ids : List StreamEntryId) (g : Group) → (ack ids g).1.last_delivered ≡ g.last_delivered
unfolding ack
ack_last [] g = refl
ack_last (id ∷ ids) g = ack_last ids _

claim_row_last :
    (consumer : String) (now : ℕ) (id : StreamEntryId) (row : Pending) (f : Option Fields)
    (g : Group)
    → (claim_row consumer now id row f g).1.last_delivered ≡ g.last_delivered
claim_row_last consumer now id row none g = refl
claim_row_last consumer now id row (some f) g = refl

claim_found_last :
    (consumer : String) (now min_idle : ℕ) (id : StreamEntryId) (row : Option Pending) (s : Stream)
    (g : Group)
    → (claim_found consumer now min_idle id row s g).1.last_delivered ≡ g.last_delivered
claim_found_last consumer now min_idle id none s g = refl
claim_found_last consumer now min_idle id (some row) s g =
    elim (Bool-cases (ltb (now - row.delivered_at) min_idle)) [
      | inl h ↦ rw h refl
      | inr h ↦ rw h (claim_row_last consumer now id row _ g)
    ]

claim_last :
    (consumer : String) (now min_idle : ℕ) (es : List PendingEntry) (s : Stream) (g : Group)
    → (claim consumer now min_idle es s g).1.last_delivered ≡ g.last_delivered
unfolding claim
claim_last consumer now min_idle [] s g = refl
claim_last consumer now min_idle (e ∷ es) s g =
    claim_last consumer now min_idle es s _ ∙ claim_found_last consumer now min_idle e.id _ s g

step-Agrees : (a : Action) (σ : Stream × Group) → IsValid σ → Agrees a σ (step a σ)
unfolding step queue_step
step-Agrees (publish now fields) σ v = publish-Agrees now fields σ v
step-Agrees (fetch consumer now count) σ v = fetch-Agrees consumer now count σ v
step-Agrees (acknowledge ids) (s, g) v = same_backlog _ s g _ (ack_last ids g) v refl
step-Agrees (reclaim consumer now min_idle es) (s, g) v =
    same_backlog _ s g _ (claim_last consumer now min_idle es s g) v refl

-- From a valid stream and group, what publishers and readers are answered, and what still waits
-- for the group at the end, is what a plain first-in first-out queue of fields gives for the same
-- actions: every published message is read once as a new one, in order, and neither `ack` nor
-- `claim` takes from it or adds to it.
pub run-queue_run :
    (actions : List Action) (σ : Stream × Group)
    → IsValid σ
    → ((run actions σ).0, backlog (run actions σ).1) ≡ queue_run actions (backlog σ)
unfolding run queue_run
run-queue_run [] σ v = refl
run-queue_run (a ∷ as') σ v =
    let s = step-Agrees a σ v in
    let rest = run-queue_run as' (step a σ).1 s.valid ∙ ap (queue_run as') s.left in
    λ i. (s.reply i ∷ (rest i).0, (rest i).1)

-- A new stream and a group that starts on it are valid.
pub start-IsValid :
    IsValid (new_stream, record { last_delivered = new_stream.last_id; pending = [] })
start-IsValid = record { ascending = tt; newest = tt; delivered = UpTo-refl new_stream.last_id }
