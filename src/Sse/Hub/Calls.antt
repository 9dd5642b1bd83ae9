-- ===== src/Sse/Hub/Calls.antt =====
-- Each call of src/sse/hub.py returns.
-- What holds of the pair that an offer gives, by its cases.
use Prim.Native.Nat.{ℕ}
use boilerplate_python_fasta.Prelude.{
  Bool, List, ℕ, ◌≡◌, String, true, Option, Bool-cases, some, ◌∷◌, false, ◌==◌, arith, option_map,
  length, inl, [], ◌<◌, inr, none, ◌∙◌,
}
use boilerplate_python_fasta.Sse.Hub.{
  close, Subscriber, subscribe, publish, next, Envelope, Hub, next_from, read_stream, offered,
  drop_subscriber, members, set_subscriber, targets,
}
use boilerplate_python_fasta.Sse.Event.{ServerSentEvent}
use boilerplate_python_fasta.Sse.Hub.Registry.{
  IsFit, Closed, perform, Offered, Action, overflowing-IsFit, overflowing, closing, closing-IsFit,
  already_closed, buffering-IsFit, open_stream, ended, leave, buffering, send, already, full, shut,
  buffered, pull,
}
use boilerplate_python_fasta.Sse.Hub.Runs.{
  IsRegistry, Leaves, Returns, publish_loop-Returns, set-IsRegistry, left, drop-IsRegistry,
  returned, close_loop-Leaves, Returns-option_map,
}
use mathlib.Core.Option.{none}
use boilerplate_python_fasta.Sse.Hub.Members.{new_place}

pub by_offer :
    (P : Bool → Subscriber → Type 0) (e : ServerSentEvent) (s : Subscriber)
    → (s.terminated ≡ true → P false s)
    → (s.terminated ≡ false → P false (overflowing s))
    → (s.terminated ≡ false → length s.queue < s.buffer → P true (buffering e s))
    → (b : Bool) (s' : Subscriber) → Offered e s (some (b, s'))
    → P b s'
by_offer P e s p q r b s' w = of_pair (some (b, s')) w
  where
    in_pair : Option (Bool × Subscriber) → Type 0
    in_pair none = Unit
    in_pair (some (b, s')) = P b s'

    of_pair : (o : Option (Bool × Subscriber)) → Offered e s o → in_pair o
    of_pair o (already t) = p t
    of_pair o (full t) = q t
    of_pair o (buffered t l) = r t l

pub by_close :
    (P : Subscriber → Type 0) (s : Subscriber)
    → (s.terminated ≡ true → P s)
    → (s.terminated ≡ false → P (closing s))
    → (s' : Subscriber) → Closed s (some s')
    → P s'
by_close P s p q s' w = of_one (some s') w
  where
    in_one : Option Subscriber → Type 0
    in_one none = Unit
    in_one (some s') = P s'

    of_one : (o : Option Subscriber) → Closed s o → in_one o
    of_one o (already_closed t) = p t
    of_one o (ended t) = q t

pub offered-IsRegistry :
    (i : ℕ) (b : Bool) (s : Subscriber) (h : Hub)
    → IsRegistry h
    → IsFit s
    → IsRegistry (offered i b s h).1
offered-IsRegistry i true s h k f = set-IsRegistry i s h k f
offered-IsRegistry i false s h k f =
    drop-IsRegistry i (set_subscriber i s h) (set-IsRegistry i s h k f)

pub offer-IsFit :
    (e : ServerSentEvent) (s : Subscriber)
    → IsFit s
    → (b : Bool) (s' : Subscriber) → Offered e s (some (b, s'))
    → IsFit s'
offer-IsFit e s f =
    by_offer (λ b s'. IsFit s') e s (λ t. f) (λ t. overflowing-IsFit s t f)
      (λ t l. buffering-IsFit e s l)

pub close-IsFit : (s : Subscriber) → IsFit s → (s' : Subscriber) → Closed s (some s') → IsFit s'
close-IsFit s f = by_close IsFit s (λ t. f) (λ t. closing-IsFit s t f)

next_from-IsFit :
    (q : List Envelope) (s : Subscriber)
    → IsFit (record s { queue = q })
    → IsFit (next_from q (record s { queue = q })).1
next_from-IsFit [] s f = f
next_from-IsFit (e ∷ es) s f = omega (arith, f)

pub next-IsFit : (s : Subscriber) → IsFit s → IsFit (next s).1
unfolding next
next-IsFit s f = next_from-IsFit s.queue s f

pub subscribe-IsRegistry :
    (topic : String) (h : Hub) → IsRegistry h → IsRegistry (subscribe topic h).1
unfolding subscribe
subscribe-IsRegistry topic h k = record {
  fits = λ j. elim (Bool-cases (j == h.created)) [
    | inl e ↦ rw e (omega arith)
    | inr e ↦ rw e (k.fits j)
  ];
  fresh =
      λ t j l. new_place topic t j h (λ e. omega (arith, l, e)) ∙ k.fresh t j (omega (arith, l));
}

publish-Returns :
    (topic : String) (e : ServerSentEvent) (h : Hub)
    → IsRegistry h
    → Returns IsRegistry (publish topic e h)
unfolding publish
publish-Returns topic e h k =
    publish_loop-Returns (λ is. IsRegistry) e
      (λ i is h' k'. (
        k'.fits i,
        λ b s w.
            offered-IsRegistry i b s h' k' (offer-IsFit e (h'.subscribers i) (k'.fits i) b s w),
      ))
      (members topic h) h k

Returns-Leaves :
    (n : ℕ) (Q : Hub → Type 0) (o : Option Hub)
    → Leaves Q o
    → Returns Q (option_map (λ h. (n, h)) o)
Returns-Leaves n Q o (left h q) = returned n h q

pub close-Returns :
    (Q : Hub → Type 0)
    → ((i : ℕ) (h : Hub)
        → Q h
        → IsFit (h.subscribers i)
          × ((s : Subscriber)
              → Closed (h.subscribers i) (some s)
              → Q (drop_subscriber i (set_subscriber i s h))))
    → (topic : Option String) (h : Hub) → Q h
    → Returns Q (close topic h)
unfolding close
close-Returns Q step topic h q =
    Returns-Leaves (length (targets topic h)) Q _ (close_loop-Leaves Q step (targets topic h) h q)

pub perform-Returns : (a : Action) (h : Hub) → IsRegistry h → Returns IsRegistry (perform a h)
unfolding perform read_stream
perform-Returns (open_stream topic) h k = returned [] _ (subscribe-IsRegistry topic h k)
perform-Returns (leave i) h k = returned [] _ (drop-IsRegistry i h k)
perform-Returns (send topic e) h k = Returns-option_map (λ n. []) _ (publish-Returns topic e h k)
perform-Returns (shut topic) h k =
    Returns-option_map (λ n. []) _
      (close-Returns IsRegistry
        (λ i h' k'. (
          k'.fits i,
          λ s w.
              drop-IsRegistry i (set_subscriber i s h')
                (set-IsRegistry i s h' k' (close-IsFit (h'.subscribers i) (k'.fits i) s w)),
        ))
        topic h k)
perform-Returns (pull i) h k =
    returned _ _ (set-IsRegistry i _ h k (next-IsFit (h.subscribers i) (k.fits i)))
