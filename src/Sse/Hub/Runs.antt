-- ===== src/Sse/Hub/Runs.antt =====
-- The calls of src/sse/hub.py return, and keep the registry in order.
-- Every queue fits, and a number that is not given out yet is under no topic.
use Prim.Native.Nat.{ℕ}
use boilerplate_python_fasta.Sse.Hub.{
  drop_subscriber, Hub, publish_loop, Subscriber, ServerSentEvent, set_subscriber, dropped, offered,
  close_loop,
}
use boilerplate_python_fasta.Prelude.{
  refl, ℕ, Option, List, ◌≡◌, subst, String, option_map, some, sym, ◌∷◌, Bool-cases, arith, none,
  ◌≤◌, Bool, ◌==◌, inl, if◌then◌else◌, [], inr, ◌+◌, false, true,
}
use boilerplate_python_fasta.Sse.Hub.Registry.{
  IsFit, Offered, offer-Offered, already, Closed, close-Closed, already_closed, ended, full,
  overflowing, closing, buffered, buffering,
}
use boilerplate_python_fasta.Sse.Event.{ServerSentEvent}
use mathlib.Core.Option.{none}
use boilerplate_python_fasta.Sse.Hub.Members.{places, places-drop_subscriber-le}

pub record IsRegistry (h : Hub) : Type 0 where
  pub fits : (i : ℕ) → IsFit (h.subscribers i)
  pub fresh : (t : String) (j : ℕ) → h.created ≤ j → places j t h ≡ 0

-- A call that returns, with what holds of the hub that it leaves.
pub data Returns {A : Type 0} (Q : Hub → Type 0) : Option (A × Hub) → Type 0 where
  returned : (a : A) (h : Hub) → Q h → Returns Q (some (a, h))

pub Returns-option_map :
    {A B : Type 0} {Q : Hub → Type 0}
    → (f : A → B) (o : Option (A × Hub)) → Returns Q o
    → Returns Q (option_map (λ r. (f r.0, r.1)) o)
Returns-option_map f o (returned a h q) = returned (f a) h q

fits-set :
    (i : ℕ) (s : Subscriber) (h : Hub)
    → IsRegistry h
    → IsFit s
    → (j : ℕ) → IsFit ((set_subscriber i s h).subscribers j)
fits-set i s h k f j = elim (Bool-cases (j == i)) [
  | inl e ↦ subst (λ b. IsFit (if b then s else h.subscribers j)) (sym e) f
  | inr e ↦ subst (λ b. IsFit (if b then s else h.subscribers j)) (sym e) (k.fits j)
]

pub set-IsRegistry :
    (i : ℕ) (s : Subscriber) (h : Hub) → IsRegistry h → IsFit s → IsRegistry (set_subscriber i s h)
set-IsRegistry i s h k f = record { fits = fits-set i s h k f; fresh = k.fresh }

dropped_same :
    (i : ℕ) (o : Option (List ℕ)) (h : Hub)
    → ((dropped i o h).subscribers ≡ h.subscribers) × ((dropped i o h).created ≡ h.created)
dropped_same i none h = (refl, refl)
dropped_same i (some is) h = (refl, refl)

pub drop_subscribers : (i : ℕ) (h : Hub) → (drop_subscriber i h).subscribers ≡ h.subscribers
unfolding drop_subscriber
drop_subscribers i h = (dropped_same i _ h).0

pub drop_created : (i : ℕ) (h : Hub) → (drop_subscriber i h).created ≡ h.created
unfolding drop_subscriber
drop_created i h = (dropped_same i _ h).1

pub drop-IsRegistry : (i : ℕ) (h : Hub) → IsRegistry h → IsRegistry (drop_subscriber i h)
drop-IsRegistry i h k = record {
  fits = λ j. subst (λ f. IsFit (f j)) (sym (drop_subscribers i h)) (k.fits j);
  fresh = λ t j l. omega (
    arith,
    places-drop_subscriber-le i j t h,
    k.fresh t j (subst (λ n. n ≤ j) (drop_created i h) l),
  );
}

offer_gives-Offered :
    (e : ServerSentEvent) (s : Subscriber) (o : Option (Bool × Subscriber))
    → Offered e s o
    → (b : Bool) × ((s' : Subscriber) × (o ≡ some (b, s')))
offer_gives-Offered e s o (already t) = (false, (s, refl))
offer_gives-Offered e s o (full t) = (false, (overflowing s, refl))
offer_gives-Offered e s o (buffered t l) = (true, (buffering e s, refl))

close_gives-Closed :
    (s : Subscriber) (o : Option Subscriber) → Closed s o → (s' : Subscriber) × (o ≡ some s')
close_gives-Closed s o (already_closed t) = (s, refl)
close_gives-Closed s o (ended t) = (closing s, refl)

-- The loops, for anything that each of their rounds keeps.
pub publish_loop-Returns :
    (Q : List ℕ → Hub → Type 0) (e : ServerSentEvent)
    → ((i : ℕ) (is : List ℕ) (h : Hub)
        → Q (i ∷ is) h
        → IsFit (h.subscribers i)
          × ((b : Bool) (s : Subscriber)
              → Offered e (h.subscribers i) (some (b, s))
              → Q is (offered i b s h).1))
    → (is : List ℕ) (h : Hub) → Q is h
    → Returns (Q []) (publish_loop e is h)
unfolding publish_loop
publish_loop-Returns Q e step [] h q = returned 0 h q
publish_loop-Returns Q e step (i ∷ is) h q =
    let f = (step i is h q).0 in
    let (b, (s, same)) =
      offer_gives-Offered e (h.subscribers i) _ (offer-Offered e (h.subscribers i) f) in
    subst
      (λ o. Returns (Q []) (elim o [
        | none ↦ none
        | some (took, s) ↦
            option_map (λ r. ((offered i took s h).0 + r.0, r.1))
              (publish_loop e is (offered i took s h).1)
      ]))
      (sym same)
      (Returns-option_map (λ n. (offered i b s h).0 + n) _
        (publish_loop-Returns Q e step is (offered i b s h).1 (
          (step i is h q).1 b s
            (subst (Offered e (h.subscribers i)) same (offer-Offered e (h.subscribers i) f)))))

-- The loop of `close`.
pub data Leaves (Q : Hub → Type 0) : Option Hub → Type 0 where
  left : (h : Hub) → Q h → Leaves Q (some h)

pub close_loop-Leaves :
    (Q : Hub → Type 0)
    → ((i : ℕ) (h : Hub)
        → Q h
        → IsFit (h.subscribers i)
          × ((s : Subscriber)
              → Closed (h.subscribers i) (some s)
              → Q (drop_subscriber i (set_subscriber i s h))))
    → (is : List ℕ) (h : Hub) → Q h
    → Leaves Q (close_loop is h)
unfolding close_loop
close_loop-Leaves Q step [] h q = left h q
close_loop-Leaves Q step (i ∷ is) h q =
    let f = (step i h q).0 in
    let (s, same) = close_gives-Closed (h.subscribers i) _ (close-Closed (h.subscribers i) f) in
    subst
      (λ o. Leaves Q (elim o [
        | none ↦ none
        | some s ↦ close_loop is (drop_subscriber i (set_subscriber i s h))
      ]))
      (sym same)
      (close_loop-Leaves Q step is (drop_subscriber i (set_subscriber i s h)) (
        (step i h q).1 s
          (subst (Closed (h.subscribers i)) same (close-Closed (h.subscribers i) f))))
