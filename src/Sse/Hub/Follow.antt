-- ===== src/Sse/Hub/Follow.antt =====
-- One stream of src/sse/hub.py through the calls that concern it and the ones that do not.
use Prim.Native.String.{String, []}
use Prim.Native.Nat.{ℕ}
use boilerplate_python_fasta.Prelude.{
  refl, String, ℕ, List, ◌==◌, ◌≢◌, ◌≡◌, Bool, false, true, ◌<◌, arith, ap, some, if◌then◌else◌,
  subst, ◌≤◌, ◌++◌, [], ◌∙◌, ◌∷◌, sym,
}
use boilerplate_python_fasta.Sse.Hub.{
  subscribe, ServerSentEvent, Hub, Subscriber, offered, drop_subscriber, set_subscriber,
}
use boilerplate_python_fasta.Sse.Event.{ServerSentEvent}
use boilerplate_python_fasta.Sse.Hub.Registry.{Offered, Closed}
use boilerplate_python_fasta.Sse.Hub.Members.{
  places, new_place, places-drop_subscriber-le, places-drop_other,
}
use boilerplate_python_fasta.Sse.Hub.Runs.{drop_subscribers, drop_created}
use boilerplate_python_fasta.Sse.Hub.Calls.{by_close, by_offer}
use boilerplate_python_fasta.Sse.Hub.Stream.{
  Tracks-closing, Tracks, Tracks-missed, Tracks-overflowing, true_not_false, Tracks-buffering,
}

-- The stream `i` stands under its topic alone, there at most once, and while it is not terminated
-- it does stand there.
pub record Follows (topic : String) (i : ℕ) (P R : List ServerSentEvent) (h : Hub) : Type 0 where
  pub known : i < h.created
  pub elsewhere : (t : String) → t ≢ topic → places i t h ≡ 0
  pub once : places i topic h ≤ 1
  pub registered : (h.subscribers i).terminated ≡ false → places i topic h ≡ 1
  pub track : Tracks P R (h.subscribers i)

Follows-transfer :
    (topic : String) (i : ℕ) (P R : List ServerSentEvent) (h h' : Hub)
    → h'.subscribers i ≡ h.subscribers i
    → i < h'.created
    → ((t : String) → places i t h' ≡ places i t h)
    → Follows topic i P R h
    → Follows topic i P R h'
Follows-transfer topic i P R h h' same l p f = record {
  known = l;
  elsewhere = λ t n. p t ∙ f.elsewhere t n;
  once = subst (λ n. n ≤ 1) (sym (p topic)) f.once;
  registered = λ u. p topic ∙ f.registered (ap (λ s. s.terminated) (sym same) ∙ u);
  track = subst (Tracks P R) (sym same) f.track;
}

different : (i j : ℕ) → j ≢ i → (i == j) ≡ false
different i j n = ground arith

pub itself : (i : ℕ) → (i == i) ≡ true
itself i = ground arith

pub set-other :
    (topic : String) (i j : ℕ) (P R : List ServerSentEvent) (s : Subscriber) (h : Hub)
    → j ≢ i
    → Follows topic i P R h
    → Follows topic i P R (set_subscriber j s h)
set-other topic i j P R s h n f =
    Follows-transfer topic i P R h (set_subscriber j s h)
      (ap (λ b. if b then s else h.subscribers i) (different i j n)) f.known (λ t. refl) f

pub drop-other :
    (topic : String) (i j : ℕ) (P R : List ServerSentEvent) (h : Hub)
    → j ≢ i
    → Follows topic i P R h
    → Follows topic i P R (drop_subscriber j h)
drop-other topic i j P R h n f =
    Follows-transfer topic i P R h (drop_subscriber j h) (λ k. drop_subscribers j h k i)
      (subst (λ c. i < c) (sym (drop_created j h)) f.known) (λ t. places-drop_other j i t h n) f

pub subscribe-other :
    (topic t : String) (i : ℕ) (P R : List ServerSentEvent) (h : Hub)
    → Follows topic i P R h
    → Follows topic i P R (subscribe t h).1
unfolding subscribe
subscribe-other topic t i P R h f =
    Follows-transfer topic i P R h (subscribe t h).1
      (ap
        (λ b.
          if b
          then record { topic = t; buffer = h.buffer; queue = []; terminated = false }
          else h.subscribers i)
        (different i h.created (λ e. omega (arith, e, f.known))))
      (omega (arith, f.known)) (λ u. new_place t u i h (λ e. omega (arith, e, f.known))) f

-- A change of the stream itself, which stays or is dropped.
pub set-own :
    (topic : String) (i : ℕ) (P R P' R' : List ServerSentEvent) (s : Subscriber) (h : Hub)
    → (s.terminated ≡ false → (h.subscribers i).terminated ≡ false)
    → Tracks P' R' s
    → Follows topic i P R h
    → Follows topic i P' R' (set_subscriber i s h)
set-own topic i P R P' R' s h u k f =
    let same : (if i == i then s else h.subscribers i) ≡ s =
      ap (λ b. if b then s else h.subscribers i) (itself i) in
    record {
      known = f.known;
      elsewhere = f.elsewhere;
      once = f.once;
      registered = λ t. f.registered (u (ap (λ s. s.terminated) (sym same) ∙ t));
      track = subst (Tracks P' R') (sym same) k;
    }

pub drop-own :
    (topic : String) (i : ℕ) (P R P' R' : List ServerSentEvent) (s : Subscriber) (h : Hub)
    → s.terminated ≡ true
    → Tracks P' R' s
    → Follows topic i P R h
    → Follows topic i P' R' (drop_subscriber i (set_subscriber i s h))
drop-own topic i P R P' R' s h u k f =
    let same : (drop_subscriber i (set_subscriber i s h)).subscribers i ≡ s =
      (λ j. drop_subscribers i (set_subscriber i s h) j i)
      ∙ ap (λ b. if b then s else h.subscribers i) (itself i) in
    record {
      known = subst (λ c. i < c) (sym (drop_created i (set_subscriber i s h))) f.known;
      elsewhere = λ t n.
          omega (arith, places-drop_subscriber-le i i t (set_subscriber i s h), f.elsewhere t n);
      once = omega (arith, places-drop_subscriber-le i i topic (set_subscriber i s h), f.once);
      registered = λ t. absurd (true_not_false (sym u ∙ ap (λ s. s.terminated) (sym same) ∙ t));
      track = subst (Tracks P' R') (sym same) k;
    }

-- An offer to the stream, and to another one.
pub offered-own :
    (topic : String) (i : ℕ) (P R : List ServerSentEvent) (e : ServerSentEvent) (h : Hub)
    → Follows topic i P R h
    → (b : Bool) (s : Subscriber) → Offered e (h.subscribers i) (some (b, s))
    → Follows topic i (P ++ e ∷ []) R (offered i b s h).1
offered-own topic i P R e h f =
    by_offer (λ b s. Follows topic i (P ++ e ∷ []) R (offered i b s h).1) e (h.subscribers i)
      (λ t. drop-own topic i P R _ R _ h t (Tracks-missed P R e (h.subscribers i) t f.track) f)
      (λ t. drop-own topic i P R _ R _ h refl (Tracks-overflowing P R e _ t f.track) f)
      (λ t l. set-own topic i P R _ R _ h (λ u. u) (Tracks-buffering P R e _ t f.track) f)

pub offered-other :
    (topic : String) (i j : ℕ) (P R : List ServerSentEvent) (b : Bool) (s : Subscriber) (h : Hub)
    → j ≢ i
    → Follows topic i P R h
    → Follows topic i P R (offered j b s h).1
offered-other topic i j P R true s h n f = set-other topic i j P R s h n f
offered-other topic i j P R false s h n f =
    drop-other topic i j P R (set_subscriber j s h) n (set-other topic i j P R s h n f)

pub closed-own :
    (topic : String) (i : ℕ) (P R : List ServerSentEvent) (h : Hub)
    → Follows topic i P R h
    → (s : Subscriber) → Closed (h.subscribers i) (some s)
    → Follows topic i P R (drop_subscriber i (set_subscriber i s h))
closed-own topic i P R h f =
    by_close (λ s. Follows topic i P R (drop_subscriber i (set_subscriber i s h))) (h.subscribers i)
      (λ t. drop-own topic i P R P R _ h t f.track f)
      (λ t. drop-own topic i P R P R _ h refl (Tracks-closing P R _ t f.track) f)
