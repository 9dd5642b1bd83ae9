-- ===== src/Idempotency/Retries.antt =====
-- What a retry of a completed request gets, of src/middleware/idempotency.py with the store in memory.
use boilerplate_python_fasta.Idempotency.Capture.{settle, capture_all, no_capture, Sent}
use boilerplate_python_fasta.Idempotency.Memory.{MemoryStore, reserve, complete, live}
use boilerplate_python_fasta.Idempotency.Middleware.{
  replayed, refused, passed, executing, Admission, Request, admit, handle_existing,
  IdempotencyConfig, reserve_with,
}
use boilerplate_python_fasta.Idempotency.System.{
  System, Step, tick, arrives, finishes, Reachable, here, next, start, Execution, without, admitted,
  settled, reserve_memory, finish, handled, IsTimely,
}
use boilerplate_python_fasta.Idempotency.Records.{
  Handled, skipped, reserved, Reserved, found, claimed, Writes, entry, reservation, release-Writes,
  handle-Handled, full_key_of, fingerprint_of, reserve-Reserved, store_record-Writes,
}
use boilerplate_python_fasta.Idempotency.Middleware.{key_reused}
use boilerplate_python_fasta.Idempotency.Base.{StoredResponse}
use boilerplate_python_fasta.Idempotency.Protected.{IsProtected, protected_handled}
use boilerplate_python_fasta.Idempotency.Memory.{live, reserve_found, unexpired}
use boilerplate_python_fasta.Idempotency.System.{handled}
use boilerplate_python_fasta.Prelude.{
  refl, ◌≡◌, Option, List, ℕ, ◌≤◌, get_elem?, ◌<◌, some, Bool, arith, leb, All, subst, none, ◌+◌,
  All-get_elem?, sym, false, ◌≢◌, ◌∙◌, ap, ite, if◌then◌else◌, Bool-cases, inl, inr, if_pos, if_neg,
}
use boilerplate_python_fasta.Idempotency.Base.{IdempotencyRecord}
use mathlib.Core.Option.{none}
use boilerplate_python_fasta.Idempotency.Exclusive.{IsExclusive-Reachable, IsExclusive}
use boilerplate_python_fasta.Idempotency.Running.{IsOther, without-IsOther, All-without}
use boilerplate_python_fasta.Idempotency.Answers.{
  existing-admitted, turned_away-admitted, settled-Writes,
}
use boilerplate_python_fasta.Prelude.Text.{
  codes_discrete, same_codes, same_codes_self, same_codes-true,
}

-- A record that lasts until `x`, and no execution for its key.
record IsCompleted (key : List ℕ) (r : IdempotencyRecord) (x : ℕ) (s : System) : Type 0 where
  pub stored : entry key s.store ≡ some (r, x)
  pub idle : All (IsOther key) s.running

IsCompleted-claimed :
    (key : List ℕ) (r : IdempotencyRecord) (x : ℕ) (s : System) (k fp : List ℕ) (t : MemoryStore)
    → ((r : IdempotencyRecord) (x : ℕ) → entry k s.store ≡ some (r, x) → x ≤ s.now)
    → Writes k (some (reservation fp, s.now + s.store.reservation_ttl)) s.store t
    → s.now < x
    → IsCompleted key r x s
    → IsCompleted key r x (admitted (executing k fp, t) s)
IsCompleted-claimed key r x s k fp t f w l h =
    let other : k ≢ key =
      λ same. omega (arith, l, f r x (ap (λ j. entry j s.store) same ∙ h.stored)) in
    record { stored = w.others key other ∙ h.stored; idle = (λ same. other (sym same), h.idle) }

IsCompleted-Reserved :
    (config : IdempotencyConfig) (key : List ℕ) (r : IdempotencyRecord) (x : ℕ) (s : System)
    (k fp : List ℕ) (p : Option IdempotencyRecord × MemoryStore)
    → Reserved s.now k fp s.store p
    → s.now < x
    → IsCompleted key r x s
    → IsCompleted key r x (admitted (admit config k fp (some p.0), p.1) s)
IsCompleted-Reserved config key r x s k fp p (found q y e g) l h =
    subst (IsCompleted key r x) (sym (existing-admitted fp q s)) h
IsCompleted-Reserved config key r x s k fp p (claimed t f w) l h =
    IsCompleted-claimed key r x s k fp t f w l h

IsCompleted-Handled :
    (sha : List ℕ → List ℕ) (config : IdempotencyConfig) (q : Request) (key : List ℕ)
    (r : IdempotencyRecord) (x : ℕ) (s : System) (p : Admission × MemoryStore)
    → Handled sha config s.now q s.store p
    → s.now < x
    → IsCompleted key r x s
    → IsCompleted key r x (admitted p s)
IsCompleted-Handled sha config q key r x s p (skipped a t) l h =
    subst (IsCompleted key r x) (sym (turned_away-admitted a s t)) h
IsCompleted-Handled sha config q key r x s p (reserved k body e z) l h =
    let full = full_key_of sha q k in
    let fp = fingerprint_of sha q body in
    IsCompleted-Reserved config key r x s full fp (reserve s.now full fp s.store)
      (reserve-Reserved s.now full fp s.store) l h

IsCompleted-settled :
    (key : List ℕ) (r : IdempotencyRecord) (x i : ℕ) (e : Execution) (o : Option IdempotencyRecord)
    (s : System)
    → get_elem? s.running i ≡ some e
    → IsCompleted key r x s
    → IsCompleted key r x (settled e o (record s { running = without i s.running }))
IsCompleted-settled key r x i e none s g h = record {
  stored =
      (release-Writes e.full_key s.store).others key
        (λ same. All-get_elem? (IsOther key) s.running i e h.idle g (sym same))
      ∙ h.stored;
  idle = All-without (IsOther key) i s.running h.idle;
}
IsCompleted-settled key r x i e (some q) s g h =
    let (w, writes) = settled-Writes e (some q) (record s { running = without i s.running }) in
    record {
      stored =
          writes.others key (λ same. All-get_elem? (IsOther key) s.running i e h.idle g (sym same))
          ∙ h.stored;
      idle = All-without (IsOther key) i s.running h.idle;
    }

IsCompleted-Step :
    (sha : List ℕ → List ℕ) (config : IdempotencyConfig) (key : List ℕ) (r : IdempotencyRecord)
    (x : ℕ) (s t : System)
    → Step sha config s t
    → s.now < x
    → IsCompleted key r x s
    → IsCompleted key r x t
IsCompleted-Step sha config key r x s t (tick later up) l h = record {
  stored = h.stored;
  idle = h.idle;
}
IsCompleted-Step sha config key r x s t (arrives q) l h =
    IsCompleted-Handled sha config q key r x s _ (handle-Handled sha config s.now q s.store) l h
IsCompleted-Step sha config key r x s t (finishes raised sent i e g) l h =
    IsCompleted-settled key r x i e
      (settle e.fingerprint raised (capture_all config.max_response_body_bytes sent no_capture)) s g
      h

admitted-now : (p : Admission × MemoryStore) (s : System) → (admitted p s).now ≡ s.now
admitted-now (passed, t) s = refl
admitted-now (refused e, t) s = refl
admitted-now (replayed r, t) s = refl
admitted-now (executing k f, t) s = refl

settled-now :
    (e : Execution) (o : Option IdempotencyRecord) (s : System) → (settled e o s).now ≡ s.now
settled-now e none s = refl
settled-now e (some r) s = refl

now-le :
    (sha : List ℕ → List ℕ) (config : IdempotencyConfig) (s t : System)
    → Step sha config s t
    → s.now ≤ t.now
now-le sha config s t (tick later up) = up
now-le sha config s t (arrives q) = omega (arith, admitted-now (handled sha config q s) s)
now-le sha config s t (finishes raised sent i e g) = omega (
  arith,
  settled-now e
      (settle e.fingerprint raised (capture_all config.max_response_body_bytes sent no_capture))
      (record s { running = without i s.running }),
)

IsCompleted-Reachable :
    (sha : List ℕ → List ℕ) (config : IdempotencyConfig) (key : List ℕ) (r : IdempotencyRecord)
    (x : ℕ) (s t : System)
    → Reachable sha config s t
    → t.now < x
    → IsCompleted key r x s
    → IsCompleted key r x t
IsCompleted-Reachable sha config key r x s t here l h = h
IsCompleted-Reachable sha config key r x s t (next u v c q) l h =
    let before : u.now < x = omega (arith, l, now-le sha config u v q) in
    IsCompleted-Step sha config key r x u v q before
      (IsCompleted-Reachable sha config key r x s u c before h)

live_reserve :
    (now x : ℕ) (key fp : List ℕ) (r : IdempotencyRecord) (s : MemoryStore)
    → entry key s ≡ some (r, x)
    → now < x
    → reserve now key fp s ≡ (some r, s)
unfolding reserve live
live_reserve now x key fp r s e l =
    let fresh : leb x now ≡ false = ground (arith, l) in
    ap (λ o. reserve_found now key fp (unexpired now key o s)) e ∙ rw fresh refl

settled-IsCompleted :
    (e : Execution) (i : ℕ) (r : IdempotencyRecord) (s : System)
    → get_elem? s.running i ≡ some e
    → IsExclusive s
    → IsCompleted e.full_key r
        (s.now + s.store.record_ttl)
        (settled e (some r) (record s { running = without i s.running }))
unfolding complete
settled-IsCompleted e i r s g h = record {
  stored = (store_record-Writes e.full_key r (s.now + s.store.record_ttl) s.store).written;
  idle = without-IsOther i e s.running h.distinct g;
}

-- What a request with the key of a completed one is answered: the stored response, or an error if
-- its fingerprint is another.
abbrev pub retry_answer : (fingerprint completed : List ℕ) → StoredResponse → Admission
retry_answer fingerprint completed stored =
    ite (codes_discrete completed fingerprint) (replayed stored) (refused key_reused)

completed_answer :
    (fingerprint completed : List ℕ) (stored : StoredResponse)
    → handle_existing fingerprint (record { fingerprint = completed; response = some stored })
      ≡ retry_answer fingerprint completed stored
unfolding handle_existing
completed_answer fingerprint completed stored = elim (codes_discrete completed fingerprint) [
  | yes e ↦
      ap (λ b. if b then replayed stored else refused key_reused)
        (ap (λ c. same_codes c fingerprint) e ∙ same_codes_self fingerprint)
      ∙ sym (if_pos (codes_discrete completed fingerprint) e (replayed stored) (refused key_reused))
  | no n ↦ elim (Bool-cases (same_codes completed fingerprint)) [
    | inl t ↦ absurd (n (same_codes-true completed fingerprint t))
    | inr f ↦
        ap (λ b. if b then replayed stored else refused key_reused) f
        ∙ sym
            (if_neg (codes_discrete completed fingerprint) n (replayed stored) (refused key_reused))
  ]
]

-- A request completed with a stored response. Until that expires, and whatever other requests come
-- and end, a request is answered without an execution if it is of a method and a path that are
-- protected, carries the same key in the same scope, and has a body within the limit: with the
-- stored response if its fingerprint is that of the completed request, and with an error if not.
-- The store stays as it is, and no execution for the key is under way. Up to the completion,
-- executions have to end before their reservations expire, and reservations to last at all.
pub completed_replays :
    (sha : List ℕ → List ℕ) (config : IdempotencyConfig) (store : MemoryStore) (s t : System)
    (raised : Bool) (sent : List Sent) (i : ℕ) (e : Execution) (stored : StoredResponse)
    (q : Request) (key body : List ℕ)
    → 0 < store.reservation_ttl
    → (reach : Reachable sha config (start store) s) → IsTimely reach
    → get_elem? s.running i ≡ some e
    → settle e.fingerprint raised (capture_all config.max_response_body_bytes sent no_capture)
      ≡ some (record { fingerprint = e.fingerprint; response = some stored })
    → Reachable sha config (finish config.max_response_body_bytes raised sent i e s) t
    → t.now < s.now + s.store.record_ttl
    → IsProtected config q key body
    → full_key_of sha q key ≡ e.full_key
    → (handled sha config q t
        ≡ (retry_answer (fingerprint_of sha q body) e.fingerprint stored, t.store))
      × All (IsOther e.full_key) t.running
completed_replays sha config store s t raised sent i e stored q key body l reach timely g kept after
      soon protected same =
    let r : IdempotencyRecord = record { fingerprint = e.fingerprint; response = some stored } in
    let x = s.now + s.store.record_ttl in
    let fp = fingerprint_of sha q body in
    let done : IsCompleted e.full_key r x
        (finish config.max_response_body_bytes raised sent i e s) =
      subst
        (λ o. IsCompleted e.full_key r x (settled e o (record s { running = without i s.running })))
        (sym kept)
        (settled-IsCompleted e i r s g (IsExclusive-Reachable sha config store s l reach timely)) in
    let c = IsCompleted-Reachable sha config e.full_key r x _ t after soon done in
    (
      protected_handled sha config q key body t protected
          ∙ ap (λ k. reserve_with (reserve_memory t.now) config k fp t.store) same
          ∙ ap (λ p. (admit config e.full_key fp (some p.0), p.1))
              (live_reserve t.now x e.full_key fp r t.store c.stored soon)
          ∙ ap (λ a. (a, t.store)) (completed_answer fp e.fingerprint stored),
      c.idle,
    )
