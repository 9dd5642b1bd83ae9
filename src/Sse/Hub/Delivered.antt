-- ===== src/Sse/Hub/Delivered.antt =====
-- The events that a stream gets over any sequence of calls of src/sse/hub.py.
-- The events that a call publishes on a topic, and the ones that a stream has read.
use mathlib.Core.List.{append_assoc, append-nil}
use boilerplate_python_fasta.Sse.Hub.{
  Hub, ServerSentEvent, Round, Subscriber, offered, close, publish, members, set_subscriber,
  drop_subscriber,
}
use boilerplate_python_fasta.Sse.Hub.Registry.{
  Action, perform, send, Offered, open_stream, leave, shut, pull, Closed,
}
use boilerplate_python_fasta.Sse.Hub.Runs.{
  Returns, returned, IsRegistry, publish_loop-Returns, drop-IsRegistry, set-IsRegistry,
}
use boilerplate_python_fasta.Prelude.{
  refl, ℕ, count, String, List, [], ◌∷◌, ◌++◌, ◌≢◌, ◌≡◌, if◌then◌else◌, Bool, ℕ_discrete, Option,
  ap, ◌==◌, ite, arith, suc, some, ◌⊎◌, option_map, String_discrete, subst, ◌∙◌, sym, inl, inr, ◌≤◌,
  zero, Bool-cases,
}
use boilerplate_python_fasta.Sse.Event.{ServerSentEvent}
use boilerplate_python_fasta.Sse.Hub.Follow.{
  Follows, offered-own, offered-other, closed-own, drop-other, set-other,
}
use boilerplate_python_fasta.Sse.Hub.Stream.{event_of, Tracks-missed}
use boilerplate_python_fasta.Sse.Hub.Calls.{
  offered-IsRegistry, offer-IsFit, close-Returns, close-IsFit,
}
use boilerplate_python_fasta.Sse.Hub.Members.{places}

abbrev pub sent_by : (topic : String) → Action → List ServerSentEvent
sent_by topic (send t e) = ite (String_discrete t topic) (e ∷ []) []
sent_by topic (open_stream t) = []
sent_by topic (leave j) = []
sent_by topic (shut t) = []
sent_by topic (pull j) = []

abbrev pub sent_to : (topic : String) → List Action → List ServerSentEvent
sent_to topic [] = []
sent_to topic (a ∷ as') = sent_by topic a ++ sent_to topic as'

abbrev pub received : ℕ → List (ℕ × Round) → List ServerSentEvent
received i [] = []
received i ((j, r) ∷ log) = (if j == i then event_of r else []) ++ received i log

pub received-append :
    (i : ℕ) (l m : List (ℕ × Round)) → received i (l ++ m) ≡ received i l ++ received i m
received-append i [] m = refl
received-append i ((j, r) ∷ l) m =
    ap (λ x. (if j == i then event_of r else []) ++ x) (received-append i l m)
    ∙ sym (append_assoc (if j == i then event_of r else []) (received i l) (received i m))

-- A call or a run, with the registry in order and the stream as it should be.
pub data Gets (topic : String) (i : ℕ) (P R : List ServerSentEvent)
    : Option (List (ℕ × Round) × Hub) → Type 0 where
  gets :
      (log : List (ℕ × Round)) (h : Hub)
      → IsRegistry h
      → Follows topic i P (R ++ received i log) h
      → Gets topic i P R (some (log, h))

-- A call that no stream reads by.
pub quiet :
    (topic : String) (i : ℕ) (P R : List ServerSentEvent) (h : Hub)
    → IsRegistry h
    → Follows topic i P R h
    → Gets topic i P R (some ([], h))
quiet topic i P R h k f = gets [] h k (subst (λ r. Follows topic i P r h) (sym (append-nil R)) f)

quiet_map :
    (topic : String) (i : ℕ) (P R : List ServerSentEvent) (o : Option (ℕ × Hub))
    → Returns (λ h. IsRegistry h × Follows topic i P R h) o
    → Gets topic i P R (option_map (λ r. ([], r.1)) o)
quiet_map topic i P R o (returned n h q) = quiet topic i P R h q.0 q.1

-- Inside the loop of `publish`, the stream has got the event, or it is still to come, once.
InLoop :
    (topic : String) (i : ℕ) (P P' R : List ServerSentEvent) (e : ServerSentEvent)
    → List ℕ
    → Hub
    → Type 0
InLoop topic i P P' R e is h =
    IsRegistry h
    × (((count ℕ_discrete i is ≡ 0) × Follows topic i P' R h)
        ⊎ ((count ℕ_discrete i is ≡ 1) × Follows topic i P R h × (P ++ e ∷ [] ≡ P')))

first_place :
    (i j : ℕ) (is : List ℕ) → j ≡ i → count ℕ_discrete i (j ∷ is) ≡ suc (count ℕ_discrete i is)
unfolding count
first_place i j is e = ground (arith, e)

other_place : (i j : ℕ) (is : List ℕ) → j ≢ i → count ℕ_discrete i (j ∷ is) ≡ count ℕ_discrete i is
unfolding count
other_place i j is n = ground (arith, n)

InLoop-round :
    (topic : String) (i : ℕ) (P P' R : List ServerSentEvent) (e : ServerSentEvent) (j : ℕ)
    (is : List ℕ) (h : Hub)
    → InLoop topic i P P' R e (j ∷ is) h
    → (b : Bool) (s : Subscriber) → Offered e (h.subscribers j) (some (b, s))
    → InLoop topic i P P' R e is (offered j b s h).1
unfolding InLoop
InLoop-round topic i P P' R e j is h (k, state) b s w = (
  offered-IsRegistry j b s h k (offer-IsFit e (h.subscribers j) (k.fits j) b s w),
  elim (ℕ_discrete j i) [
    | yes q ↦ elim state [
      | inl (c, f) ↦ absurd (omega (arith, c, first_place i j is q))
      | inr (c, f, p) ↦ inl (
        omega (arith, c, first_place i j is q),
        subst (λ x. Follows topic i x R (offered j b s h).1) p
            (subst
              (λ x.
                Offered e (h.subscribers x) (some (b, s))
                → Follows topic i (P ++ e ∷ []) R (offered x b s h).1)
              (sym q) (offered-own topic i P R e h f b s) w),
      )
    ]
    | no n ↦ elim state [
      | inl (c, f) ↦ inl (sym (other_place i j is n) ∙ c, offered-other topic i j P' R b s h n f)
      | inr (c, f, p) ↦
          inr (sym (other_place i j is n) ∙ c, offered-other topic i j P R b s h n f, p)
    ]
  ],
)

publish-InLoop :
    (topic : String) (i : ℕ) (P P' R : List ServerSentEvent) (t : String) (e : ServerSentEvent)
    (h : Hub)
    → InLoop topic i P P' R e (members t h) h
    → Returns (InLoop topic i P P' R e []) (publish t e h)
unfolding publish InLoop
publish-InLoop topic i P P' R t e h q =
    publish_loop-Returns (InLoop topic i P P' R e) e
      (λ j is h' q'. (q'.0.fits j, InLoop-round topic i P P' R e j is h' q')) (members t h) h q

out_of_loop :
    (topic : String) (i : ℕ) (P P' R : List ServerSentEvent) (e : ServerSentEvent)
    (o : Option (ℕ × Hub))
    → Returns (InLoop topic i P P' R e []) o
    → Returns (λ h. IsRegistry h × Follows topic i P' R h) o
unfolding InLoop count
out_of_loop topic i P P' R e o (returned n h (k, inl (c, f))) = returned n h (k, f)
out_of_loop topic i P P' R e o (returned n h (k, inr (c, f, p))) = absurd (omega (arith, c))

none_or_one : (n : ℕ) → n ≤ 1 → (n ≡ 0) ⊎ (n ≡ 1)
none_or_one zero l = inl refl
none_or_one (suc n) l = inr (omega (arith, l))

-- A publish on the topic, where the stream stands under it or not.
enter_loop :
    (topic : String) (i : ℕ) (P R : List ServerSentEvent) (e : ServerSentEvent) (h : Hub)
    → IsRegistry h
    → Follows topic i P R h
    → InLoop topic i P (P ++ e ∷ []) R e (members topic h) h
unfolding InLoop
enter_loop topic i P R e h k f = (
  k,
  elim (none_or_one (places i topic h) f.once) [
    | inr c ↦ inr (c, f, refl)
    | inl c ↦ elim (Bool-cases (h.subscribers i).terminated) [
      | inr t ↦ absurd (omega (arith, c, f.registered t))
      | inl t ↦ inl (
        c,
        record {
          known = f.known;
          elsewhere = f.elsewhere;
          once = f.once;
          registered = f.registered;
          track = Tracks-missed P R e (h.subscribers i) t f.track;
        },
      )
    ]
  ],
)

pub send-Gets :
    (topic : String) (i : ℕ) (P R : List ServerSentEvent) (t : String) (e : ServerSentEvent)
    (h : Hub)
    → IsRegistry h
    → Follows topic i P R h
    → Gets topic i (P ++ sent_by topic (send t e)) R (perform (send t e) h)
unfolding perform InLoop
send-Gets topic i P R t e h k f =
    elim (String_discrete t topic)
      as (λ d.
        Gets topic i (P ++ ite d (e ∷ []) []) R (option_map (λ r. ([], r.1)) (publish t e h))) [
          | yes q ↦ quiet_map topic i (P ++ e ∷ []) R (publish t e h) (
              out_of_loop topic i P (P ++ e ∷ []) R e _ (
                publish-InLoop topic i P (P ++ e ∷ []) R t e h (
                  subst (λ u. InLoop topic i P (P ++ e ∷ []) R e (members u h) h) (sym q)
                    (enter_loop topic i P R e h k f))))
          | no n ↦ quiet_map topic i (P ++ []) R (publish t e h) (
              out_of_loop topic i P (P ++ []) R e _ (
                publish-InLoop topic i P (P ++ []) R t e h (
                  k,
                  inl (f.elsewhere t n, subst (λ p. Follows topic i p R h) (sym (append-nil P)) f),
                )))
        ]

pub close-Gets :
    (topic : String) (i : ℕ) (P R : List ServerSentEvent) (t : Option String) (h : Hub)
    → IsRegistry h
    → Follows topic i P R h
    → Gets topic i P R (perform (shut t) h)
unfolding perform
close-Gets topic i P R t h k f = quiet_map topic i P R (close t h) (
    close-Returns (λ h. IsRegistry h × Follows topic i P R h)
      (λ j h' q. (
        q.0.fits j,
        λ s w. (
          drop-IsRegistry j (set_subscriber j s h')
              (set-IsRegistry j s h' q.0 (close-IsFit (h'.subscribers j) (q.0.fits j) s w)),
          elim (ℕ_discrete j i) [
            | yes e ↦
                subst
                  (λ x.
                    Closed (h'.subscribers x) (some s)
                    → Follows topic i P R (drop_subscriber x (set_subscriber x s h')))
                  (sym e) (closed-own topic i P R h' q.1 s) w
            | no n ↦
                drop-other topic i j P R (set_subscriber j s h') n
                  (set-other topic i j P R s h' n q.1)
          ],
        ),
      ))
      t h (k, f))
