-- ===== src/Sse/Hub/Stream.antt =====
-- What one stream gets, of src/sse/hub.py.
-- The last envelope of a queue, if it has been put in.
use mathlib.Core.List.{append_assoc, append-nil}
use boilerplate_python_fasta.Prelude.{
  refl, List, ◌++◌, map, [], ◌∷◌, ◌≡◌, ap, false, true, subst, sym, ◌∙◌,
}
use boilerplate_python_fasta.Sse.Hub.{
  Round, next, Envelope, ServerSentEvent, yields, Subscriber, overflowed, sent, yields_last, closed,
  next_from, waits, ends,
}
use boilerplate_python_fasta.Sse.Event.{ServerSentEvent}
use boilerplate_python_fasta.Sse.Hub.Registry.{overflowing, closing, buffering}

pub data IsTail : List Envelope → Type 0 where
  drained : IsTail []
  told : IsTail (overflowed ∷ [])
  shut_down : IsTail (closed ∷ [])

-- Of the events `sent_events` that were published on its topic, a stream has got `got`. While it is
-- not terminated, its queue holds all the others, in order. After that its queue holds the ones that
-- follow what it has got, and then one last envelope, until that one is read.
pub data Tracks (sent_events got : List ServerSentEvent) (s : Subscriber) : Type 0 where
  live :
      (q : List ServerSentEvent)
      → s.terminated ≡ false
      → s.queue ≡ map sent q
      → got ++ q ≡ sent_events
      → Tracks sent_events got s
  over :
      (q missed : List ServerSentEvent) (tail : List Envelope)
      → s.terminated ≡ true
      → s.queue ≡ map sent q ++ tail
      → IsTail tail
      → got ++ (q ++ missed) ≡ sent_events
      → Tracks sent_events got s

pub true_not_false : ¬ (true ≡ false)
true_not_false e = cc

pub Tracks-missed :
    (P R : List ServerSentEvent) (e : ServerSentEvent) (s : Subscriber)
    → s.terminated ≡ true
    → Tracks P R s
    → Tracks (P ++ e ∷ []) R s
Tracks-missed P R e s t (live q u h k) = absurd (true_not_false (sym t ∙ u))
Tracks-missed P R e s t (over q m tail u h l k) = over q (m ++ e ∷ []) tail u h l (
    ap (λ x. R ++ x) (sym (append_assoc q m (e ∷ [])))
    ∙ sym (append_assoc R (q ++ m) (e ∷ []))
    ∙ ap (λ x. x ++ e ∷ []) k)

append_sent :
    (q : List ServerSentEvent) (e : ServerSentEvent)
    → map sent (q ++ e ∷ []) ≡ map sent q ++ sent e ∷ []
append_sent [] e = refl
append_sent (x ∷ q) e = ap (λ t. sent x ∷ t) (append_sent q e)

pub Tracks-buffering :
    (P R : List ServerSentEvent) (e : ServerSentEvent) (s : Subscriber)
    → s.terminated ≡ false
    → Tracks P R s
    → Tracks (P ++ e ∷ []) R (buffering e s)
Tracks-buffering P R e s t (live q u h k) =
    live (q ++ e ∷ []) u (ap (λ x. x ++ sent e ∷ []) h ∙ sym (append_sent q e))
      (sym (append_assoc R q (e ∷ [])) ∙ ap (λ x. x ++ e ∷ []) k)
Tracks-buffering P R e s t (over q m tail u h l k) = absurd (true_not_false (sym u ∙ t))

pub Tracks-overflowing :
    (P R : List ServerSentEvent) (e : ServerSentEvent) (s : Subscriber)
    → s.terminated ≡ false
    → Tracks P R s
    → Tracks (P ++ e ∷ []) R (overflowing s)
Tracks-overflowing P R e s t (live q u h k) =
    over q (e ∷ []) (overflowed ∷ []) refl (ap (λ x. x ++ overflowed ∷ []) h) told
      (sym (append_assoc R q (e ∷ [])) ∙ ap (λ x. x ++ e ∷ []) k)
Tracks-overflowing P R e s t (over q m tail u h l k) = absurd (true_not_false (sym u ∙ t))

pub Tracks-closing :
    (P R : List ServerSentEvent) (s : Subscriber)
    → s.terminated ≡ false
    → Tracks P R s
    → Tracks P R (closing s)
Tracks-closing P R s t (live q u h k) =
    over q [] (closed ∷ []) refl (ap (λ x. x ++ closed ∷ []) h) shut_down
      (ap (λ x. R ++ x) (append-nil q) ∙ k)
Tracks-closing P R s t (over q m tail u h l k) = absurd (true_not_false (sym u ∙ t))

-- The event of a round that yields one of those that were published.
abbrev pub event_of : Round → List ServerSentEvent
event_of (yields e) = e ∷ []
event_of waits = []
event_of (yields_last e) = []
event_of ends = []

one_on :
    (R q P : List ServerSentEvent) (x : ServerSentEvent) → R ++ x ∷ q ≡ P → (R ++ x ∷ []) ++ q ≡ P
one_on R q P x k = append_assoc R (x ∷ []) q ∙ k

next_by :
    (P R : List ServerSentEvent) (s : Subscriber) (w : List Envelope)
    → s.queue ≡ w
    → Tracks P (R ++ event_of (next_from w s).0) (next_from w s).1
    → Tracks P (R ++ event_of (next s).0) (next s).1
unfolding next
next_by P R s w e t =
    subst (λ v. Tracks P (R ++ event_of (next_from v s).0) (next_from v s).1) (sym e) t

after_tail :
    (P R m : List ServerSentEvent) (s : Subscriber) (tail : List Envelope)
    → s.terminated ≡ true
    → s.queue ≡ tail
    → IsTail tail
    → R ++ m ≡ P
    → Tracks P (R ++ event_of (next_from tail s).0) (next_from tail s).1
after_tail P R m s tail u h drained k =
    over [] m [] u h drained (ap (λ r. r ++ m) (append-nil R) ∙ k)
after_tail P R m s tail u h told k =
    over [] m [] u refl drained (ap (λ r. r ++ m) (append-nil R) ∙ k)
after_tail P R m s tail u h shut_down k =
    over [] m [] u refl drained (ap (λ r. r ++ m) (append-nil R) ∙ k)

pub Tracks-next :
    (P R : List ServerSentEvent) (s : Subscriber)
    → Tracks P R s
    → Tracks P (R ++ event_of (next s).0) (next s).1
Tracks-next P R s (live [] u h k) =
    next_by P R s [] h (live [] u h (ap (λ r. r ++ []) (append-nil R) ∙ k))
Tracks-next P R s (live (x ∷ q) u h k) =
    next_by P R s (sent x ∷ map sent q) h (live q u refl (one_on R q P x k))
Tracks-next P R s (over [] m tail u h l k) = next_by P R s tail h (after_tail P R m s tail u h l k)
Tracks-next P R s (over (x ∷ q) m tail u h l k) =
    next_by P R s (sent x ∷ map sent q ++ tail) h (over q m tail u refl l (one_on R (q ++ m) P x k))
