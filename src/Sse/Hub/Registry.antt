-- ===== src/Sse/Hub/Registry.antt =====
-- Any sequence of calls of src/sse/hub.py: none of them raises, and no queue outgrows its buffer.
use Prim.Native.String.{String, []}
use Prim.Native.Nat.{ℕ}
use boilerplate_python_fasta.Prelude.{
  refl, List, ℕ, String, ◌++◌, true, ◌<◌, length, Option, ◌≤◌, ◌≡◌, Bool, ◌+◌, Bool-cases, inl, ◌∷◌,
  some, ltb, if◌then◌else◌, none, arith, false, [], inr, option_map, leb, length-append, ◌⊎◌, subst,
  sym,
}
use boilerplate_python_fasta.Sse.Hub.{
  Hub, close_subscriber, Subscriber, offer, put_nowait, Round, sent, overflowed, closed, subscribe,
  drop_subscriber, publish, close, read_stream,
}
use boilerplate_python_fasta.Sse.Event.{ServerSentEvent}

pub data Action : Type 0 where
  open_stream : (topic : String) → Action
  leave : ℕ → Action
  send : (topic : String) → ServerSentEvent → Action
  shut : Option String → Action
  pull : ℕ → Action

-- A call, with what a stream gets by it.
unfoldable pub perform : Action → Hub → Option (List (ℕ × Round) × Hub)
perform (open_stream topic) h = some ([], (subscribe topic h).1)
perform (leave i) h = some ([], drop_subscriber i h)
perform (send topic e) h = option_map (λ r. ([], r.1)) (publish topic e h)
perform (shut topic) h = option_map (λ r. ([], r.1)) (close topic h)
perform (pull i) h = some ((i, (read_stream i h).0) ∷ [], (read_stream i h).1)

unfoldable pub run : List Action → Hub → Option (List (ℕ × Round) × Hub)
run [] h = some ([], h)
run (a ∷ as') h = elim (perform a h) [
  | none ↦ none
  | some (log, h') ↦ option_map (λ r. (log ++ r.0, r.1)) (run as' h')
]

-- The queue holds at most the buffer, and one more once the subscriber is terminated.
abbrev pub IsFit : Subscriber → Type 0
IsFit s = length s.queue ≤ s.buffer + (if s.terminated then 1 else 0)

abbrev pub overflowing : Subscriber → Subscriber
overflowing s = record s { terminated = true; queue = s.queue ++ overflowed ∷ [] }

abbrev pub closing : Subscriber → Subscriber
closing s = record s { terminated = true; queue = s.queue ++ closed ∷ [] }

abbrev pub buffering : ServerSentEvent → Subscriber → Subscriber
buffering e s = record s { queue = s.queue ++ sent e ∷ [] }

-- What comes of an offer, and of a close.
pub data Offered (e : ServerSentEvent) (s : Subscriber) : Option (Bool × Subscriber) → Type 0 where
  already : s.terminated ≡ true → Offered e s (some (false, s))
  full : s.terminated ≡ false → Offered e s (some (false, overflowing s))
  buffered :
      s.terminated ≡ false → length s.queue < s.buffer → Offered e s (some (true, buffering e s))

pub data Closed (s : Subscriber) : Option Subscriber → Type 0 where
  already_closed : s.terminated ≡ true → Closed s (some s)
  ended : s.terminated ≡ false → Closed s (some (closing s))

roomy : (n b : ℕ) → n < b + 1 → ltb n (b + 1) ≡ true
roomy n b h = ground arith

leb-true : (a b : ℕ) → a ≤ b → leb a b ≡ true
leb-true a b h = ground arith

leb-false : (a b : ℕ) → b < a → leb a b ≡ false
leb-false a b h = ground arith

at_least : (a b : ℕ) → (a ≤ b) ⊎ (b < a)
at_least a b = elim (Bool-cases (leb a b)) [
  | inl h ↦ inl (ground arith)
  | inr h ↦ inr (ground arith)
]

offer_already :
    (e : ServerSentEvent) (s : Subscriber) → s.terminated ≡ true → offer e s ≡ some (false, s)
unfolding offer
offer_already e s t = rw t refl

offer_full :
    (e : ServerSentEvent) (s : Subscriber)
    → s.terminated ≡ false
    → s.buffer ≤ length s.queue
    → IsFit s
    → offer e s ≡ some (false, overflowing s)
unfolding offer put_nowait
offer_full e s t l f =
    rw (t, leb-true s.buffer (length s.queue) l, roomy (length s.queue) s.buffer (ground arith))
      refl

offer_room :
    (e : ServerSentEvent) (s : Subscriber)
    → s.terminated ≡ false
    → length s.queue < s.buffer
    → offer e s ≡ some (true, buffering e s)
unfolding offer put_nowait
offer_room e s t l =
    rw (t, leb-false s.buffer (length s.queue) l, roomy (length s.queue) s.buffer (omega arith))
      refl

close_ended :
    (s : Subscriber) → s.terminated ≡ false → IsFit s → close_subscriber s ≡ some (closing s)
unfolding close_subscriber put_nowait
close_ended s t f = rw (t, roomy (length s.queue) s.buffer (ground arith)) refl

close_already : (s : Subscriber) → s.terminated ≡ true → close_subscriber s ≡ some s
unfolding close_subscriber
close_already s t = rw t refl

pub offer-Offered : (e : ServerSentEvent) (s : Subscriber) → IsFit s → Offered e s (offer e s)
offer-Offered e s f = elim (Bool-cases s.terminated) [
  | inl t ↦ subst (Offered e s) (sym (offer_already e s t)) (already t)
  | inr t ↦ elim (at_least s.buffer (length s.queue)) [
    | inl l ↦ subst (Offered e s) (sym (offer_full e s t l f)) (full t)
    | inr l ↦ subst (Offered e s) (sym (offer_room e s t l)) (buffered t l)
  ]
]

pub close-Closed : (s : Subscriber) → IsFit s → Closed s (close_subscriber s)
close-Closed s f = elim (Bool-cases s.terminated) [
  | inl t ↦ subst (Closed s) (sym (close_already s t)) (already_closed t)
  | inr t ↦ subst (Closed s) (sym (close_ended s t f)) (ended t)
]

-- They leave a subscriber that fits.
pub overflowing-IsFit : (s : Subscriber) → s.terminated ≡ false → IsFit s → IsFit (overflowing s)
overflowing-IsFit s t f = ground (arith, length-append s.queue (overflowed ∷ []))

pub closing-IsFit : (s : Subscriber) → s.terminated ≡ false → IsFit s → IsFit (closing s)
closing-IsFit s t f = ground (arith, length-append s.queue (closed ∷ []))

pub buffering-IsFit :
    (e : ServerSentEvent) (s : Subscriber) → length s.queue < s.buffer → IsFit (buffering e s)
buffering-IsFit e s l = ground (arith, length-append s.queue (sent e ∷ []))
