-- ===== src/Idempotency/Served.antt =====
-- The records that are kept were stored by an execution, of src/middleware/idempotency.py.
use mathlib.Core.Option.{some-injective, none-ne-some}
use boilerplate_python_fasta.Prelude.Dict
use boilerplate_python_fasta.Prelude.Dict.{Dict}
use boilerplate_python_fasta.Idempotency.Capture.{settle, capture_all, no_capture, Capture}
use boilerplate_python_fasta.Idempotency.Memory.{MemoryStore, reserve, complete}
use boilerplate_python_fasta.Idempotency.Middleware.{Admission, Request, admit, IdempotencyConfig}
use boilerplate_python_fasta.Idempotency.System.{
  System, Step, tick, arrives, finishes, Reachable, here, next, start, Execution, without, admitted,
  settled, serve,
}
use boilerplate_python_fasta.Idempotency.Records.{
  Handled, skipped, reserved, Reserved, found, claimed, Writes, entry, release-Writes,
  handle-Handled, full_key_of, fingerprint_of, reserve-Reserved, store_record-Writes,
}
use boilerplate_python_fasta.Prelude.{
  refl, ◌≡◌, Option, List, ℕ, get_elem?, some, Bool, subst, none, ◌+◌, sym, false, ◌∙◌, ap, suc,
  if◌then◌else◌, [],
}
use boilerplate_python_fasta.Idempotency.Base.{IdempotencyRecord, StoredResponse}
use mathlib.Core.Option.{none}
use boilerplate_python_fasta.Idempotency.Answers.{existing-admitted, turned_away-admitted}
use boilerplate_python_fasta.Prelude.Text.{codes_discrete}
use mathlib.Core.Bool.{true}

-- The finished records were stored for their keys and fingerprints.
abbrev pub IsServed :
    List (List ℕ × List ℕ × StoredResponse) → (key fingerprint : List ℕ) → StoredResponse → Type 0
IsServed served key fingerprint stored =
    (i : ℕ) × (get_elem? served i ≡ some (key, fingerprint, stored))

abbrev pub AllServed : (served : List (List ℕ × List ℕ × StoredResponse)) → MemoryStore → Type 0
AllServed served s =
    (key : List ℕ) (r : IdempotencyRecord) (x : ℕ) (stored : StoredResponse)
    → entry key s ≡ some (r, x)
    → r.response ≡ some stored
    → IsServed served key r.fingerprint stored

later-IsServed :
    (served : List (List ℕ × List ℕ × StoredResponse)) (k f : List ℕ) (o : Option StoredResponse)
    (key fp : List ℕ) (stored : StoredResponse)
    → IsServed served key fp stored
    → IsServed (serve k f o served) key fp stored
later-IsServed served k f none key fp stored h = h
later-IsServed served k f (some q) key fp stored (i, h) = (suc i, h)

-- A write is served when its record is.
AllServed-Writes :
    (served after : List (List ℕ × List ℕ × StoredResponse)) (k : List ℕ)
    (o : Option (IdempotencyRecord × ℕ)) (s t : MemoryStore)
    → Writes k o s t
    → ((key fp : List ℕ) (stored : StoredResponse)
        → IsServed served key fp stored
        → IsServed after key fp stored)
    → ((r : IdempotencyRecord) (x : ℕ) (stored : StoredResponse)
        → o ≡ some (r, x)
        → r.response ≡ some stored
        → IsServed after k r.fingerprint stored)
    → AllServed served s
    → AllServed after t
AllServed-Writes served after k o s t w grow mine h key r x stored e q =
    elim (codes_discrete k key) [
      | yes same ↦
          subst (λ j. IsServed after j r.fingerprint stored) same
            (mine r x stored (sym w.written ∙ ap (λ j. entry j t) same ∙ e) q)
      | no n ↦ grow key r.fingerprint stored (h key r x stored (sym (w.others key n) ∙ e) q)
    ]

reserved_not_finished :
    (p q : IdempotencyRecord × ℕ) (stored : StoredResponse)
    → p.0.response ≡ none
    → some p ≡ some q
    → ¬ (q.0.response ≡ some stored)
reserved_not_finished p q stored z e k =
    none-ne-some _
      (sym z ∙ ap (λ (p : IdempotencyRecord × ℕ). p.0.response) (some-injective _ _ e) ∙ k)

AllServed-Reserved :
    (config : IdempotencyConfig) (s : System) (key fp : List ℕ)
    (p : Option IdempotencyRecord × MemoryStore)
    → Reserved s.now key fp s.store p
    → AllServed s.served s.store
    → AllServed
        (admitted (admit config key fp (some p.0), p.1) s).served
        (admitted (admit config key fp (some p.0), p.1) s).store
AllServed-Reserved config s key fp p (found r x e l) h =
    subst (λ u. AllServed u.served u.store) (sym (existing-admitted fp r s)) h
AllServed-Reserved config s key fp p (claimed t f w) h =
    AllServed-Writes s.served s.served key _ s.store t w (λ j g q a. a)
      (λ r x stored e q. absurd (reserved_not_finished _ (r, x) stored refl e q)) h

AllServed-Handled :
    (sha : List ℕ → List ℕ) (config : IdempotencyConfig) (q : Request) (s : System)
    (p : Admission × MemoryStore)
    → Handled sha config s.now q s.store p
    → AllServed s.served s.store
    → AllServed (admitted p s).served (admitted p s).store
AllServed-Handled sha config q s p (skipped a t) h =
    subst (λ u. AllServed u.served u.store) (sym (turned_away-admitted a s t)) h
AllServed-Handled sha config q s p (reserved k body e z) h =
    let full = full_key_of sha q k in
    let fp = fingerprint_of sha q body in
    AllServed-Reserved config s full fp (reserve s.now full fp s.store)
      (reserve-Reserved s.now full fp s.store) h

not_none :
    {A : Type 0} → (b : Bool) (o : Option A) (x : A) → (if b then none else o) ≡ some x → o ≡ some x
not_none true o x h = cc
not_none false o x h = h

-- What `settle` keeps is under the fingerprint of the execution.
settle-fingerprint :
    (fp : List ℕ) (raised : Bool) (c : Capture) (r : IdempotencyRecord)
    → settle fp raised c ≡ some r
    → r.fingerprint ≡ fp
unfolding settle
settle-fingerprint fp raised c r h = sym (
    ap (λ (q : IdempotencyRecord). q.fingerprint)
      (some-injective _ _ (not_none _ _ r (not_none _ _ r (not_none raised _ r h)))))

just-IsServed :
    (served : List (List ℕ × List ℕ × StoredResponse)) (k f : List ℕ) (o : Option StoredResponse)
    (stored : StoredResponse)
    → o ≡ some stored
    → IsServed (serve k f o served) k f stored
just-IsServed served k f none stored h = cc
just-IsServed served k f (some q) stored h = (0, ap (λ o. some (k, f, o)) (some-injective _ _ h))

AllServed-settled :
    (i : ℕ) (e : Execution) (o : Option IdempotencyRecord) (s : System)
    → ((r : IdempotencyRecord) → o ≡ some r → r.fingerprint ≡ e.fingerprint)
    → AllServed s.served s.store
    → (let after = settled e o (record s { running = without i s.running }) in
        AllServed after.served after.store)
unfolding complete
AllServed-settled i e none s k h =
    AllServed-Writes s.served s.served e.full_key none s.store _ (release-Writes e.full_key s.store)
      (λ j g q a. a) (λ r x stored z q. absurd (none-ne-some _ z)) h
AllServed-settled i e (some r) s k h =
    AllServed-Writes s.served (serve e.full_key e.fingerprint r.response s.served) e.full_key
      (some (r, s.now + s.store.record_ttl)) s.store _
      (store_record-Writes e.full_key r (s.now + s.store.record_ttl) s.store)
      (later-IsServed s.served e.full_key e.fingerprint r.response)
      (λ r' x stored z q.
        let same : r ≡ r' = ap (λ (p : IdempotencyRecord × ℕ). p.0) (some-injective _ _ z) in
        subst
          (λ f. IsServed (serve e.full_key e.fingerprint r.response s.served) e.full_key f stored)
          (sym (k r refl) ∙ ap (λ (p : IdempotencyRecord). p.fingerprint) same)
          (just-IsServed s.served e.full_key e.fingerprint r.response stored
            (ap (λ (p : IdempotencyRecord). p.response) same ∙ q)))
      h

AllServed-Step :
    (sha : List ℕ → List ℕ) (config : IdempotencyConfig) (s t : System)
    → Step sha config s t
    → AllServed s.served s.store
    → AllServed t.served t.store
AllServed-Step sha config s t (tick later up) h = h
AllServed-Step sha config s t (arrives q) h =
    AllServed-Handled sha config q s _ (handle-Handled sha config s.now q s.store) h
AllServed-Step sha config s t (finishes raised sent i e g) h =
    let c = capture_all config.max_response_body_bytes sent no_capture in
    AllServed-settled i e (settle e.fingerprint raised c) s
      (settle-fingerprint e.fingerprint raised c) h

pub AllServed-Reachable :
    (sha : List ℕ → List ℕ) (config : IdempotencyConfig) (store : MemoryStore) (s : System)
    → store.records ≡ []
    → Reachable sha config (start store) s
    → AllServed s.served s.store
unfolding Dict.get
AllServed-Reachable sha config store s z here =
    λ key r x stored e q. absurd (none-ne-some _ (sym (ap (Dict.get codes_discrete key) z) ∙ e))
AllServed-Reachable sha config store t z (next s t' r q) =
    AllServed-Step sha config s t q (AllServed-Reachable sha config store s z r)
