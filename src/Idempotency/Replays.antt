-- ===== src/Idempotency/Replays.antt =====
-- Only what was stored for a request is replayed, of src/middleware/idempotency.py.
use boilerplate_python_fasta.Idempotency.Memory.{MemoryStore}
use boilerplate_python_fasta.Idempotency.Middleware.{
  replayed, refused, Admission, Request, admit, handle_existing, IdempotencyConfig, key_reused,
  handle_response,
}
use boilerplate_python_fasta.Idempotency.System.{System, Reachable, start, handled}
use boilerplate_python_fasta.Idempotency.Records.{
  Handled, skipped, reserved, Reserved, found, claimed, handle-Handled, full_key_of, fingerprint_of,
  reserve-Reserved, body_of, IsTurnedAway, refused_with, passed_on,
}
use boilerplate_python_fasta.Idempotency.System.{handled}
use boilerplate_python_fasta.Prelude.{
  refl, ◌≡◌, Option, List, ℕ, some, Bool, subst, none, false, if◌then◌else◌, [],
}
use boilerplate_python_fasta.Idempotency.Base.{IdempotencyRecord, StoredResponse}
use mathlib.Core.Option.{none}
use boilerplate_python_fasta.Prelude.Text.{same_codes, same_codes-true}
use mathlib.Core.Bool.{true}
use boilerplate_python_fasta.Idempotency.Served.{AllServed, AllServed-Reachable, IsServed}

-- What a replayed response was stored for: the key that the request carries, in the scope of its
-- credential, and the fingerprint of its method, path, query, content type and body.
pub record IsReplay (sha : List ℕ → List ℕ) (config : IdempotencyConfig) (q : Request)
    (served : List (List ℕ × List ℕ × StoredResponse)) (stored : StoredResponse) : Type 0 where
  pub key : List ℕ
  pub carried : q.idempotency_key ≡ some key
  pub known :
      IsServed served (full_key_of sha q key) (fingerprint_of sha q (body_of config q)) stored

if_replayed :
    (b : Bool) (a : Admission) (stored : StoredResponse)
    → (if b then a else refused key_reused) ≡ replayed stored
    → (b ≡ true) × (a ≡ replayed stored)
if_replayed true a stored h = (refl, h)
if_replayed false a stored h = cc

response_replayed :
    (o : Option StoredResponse) (stored : StoredResponse)
    → handle_response o ≡ replayed stored
    → o ≡ some stored
response_replayed none stored h = cc
response_replayed (some r) stored h = cc

existing_replayed :
    (fp : List ℕ) (r : IdempotencyRecord) (stored : StoredResponse)
    → handle_existing fp r ≡ replayed stored
    → (r.fingerprint ≡ fp) × (r.response ≡ some stored)
unfolding handle_existing
existing_replayed fp r stored h =
    let (same, from) = if_replayed (same_codes r.fingerprint fp) _ stored h in
    (same_codes-true r.fingerprint fp same, response_replayed r.response stored from)

turned_away_not_replayed :
    (a : Admission) (stored : StoredResponse) → IsTurnedAway a → ¬ (a ≡ replayed stored)
turned_away_not_replayed a stored passed_on h = cc
turned_away_not_replayed a stored (refused_with e) h = cc

Reserved-replayed :
    (config : IdempotencyConfig) (s : System) (key fp : List ℕ) (stored : StoredResponse)
    (p : Option IdempotencyRecord × MemoryStore)
    → Reserved s.now key fp s.store p
    → admit config key fp (some p.0) ≡ replayed stored
    → AllServed s.served s.store
    → IsServed s.served key fp stored
Reserved-replayed config s key fp stored p (found r x e l) h all =
    let (same, from) = existing_replayed fp r stored h in
    subst (λ f. IsServed s.served key f stored) same (all key r x stored e from)
Reserved-replayed config s key fp stored p (claimed t f w) h all = cc

Handled-replayed :
    (sha : List ℕ → List ℕ) (config : IdempotencyConfig) (q : Request) (s : System)
    (stored : StoredResponse) (p : Admission × MemoryStore)
    → Handled sha config s.now q s.store p
    → p.0 ≡ replayed stored
    → AllServed s.served s.store
    → IsReplay sha config q s.served stored
Handled-replayed sha config q s stored p (skipped a t) h all =
    absurd (turned_away_not_replayed a stored t h)
Handled-replayed sha config q s stored p (reserved k body e z) h all = record {
  key = k;
  carried = e;
  known =
      subst (λ b. IsServed s.served (full_key_of sha q k) (fingerprint_of sha q b) stored) z
        (Reserved-replayed config s (full_key_of sha q k) (fingerprint_of sha q body) stored _
          (reserve-Reserved s.now (full_key_of sha q k) (fingerprint_of sha q body) s.store) h all);
}

-- A response that a request is answered with from the store was stored for its key and its
-- fingerprint by an execution before, when the store was empty at first.
pub replayed-IsReplay :
    (sha : List ℕ → List ℕ) (config : IdempotencyConfig) (store : MemoryStore) (s : System)
    (q : Request) (stored : StoredResponse)
    → store.records ≡ []
    → Reachable sha config (start store) s
    → (handled sha config q s).0 ≡ replayed stored
    → IsReplay sha config q s.served stored
replayed-IsReplay sha config store s q stored z r h =
    Handled-replayed sha config q s stored _ (handle-Handled sha config s.now q s.store) h
      (AllServed-Reachable sha config store s z r)
