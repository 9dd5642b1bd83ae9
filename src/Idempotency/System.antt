-- ===== src/Idempotency/System.antt =====
-- The middleware of src/middleware/idempotency.py over the store of src/idempotency/memory.py, with
-- the executions that are under way.
use boilerplate_python_fasta.Idempotency.Middleware.{
  Request, Admission, executing, handle, IdempotencyConfig,
}
use boilerplate_python_fasta.Idempotency.Memory.{MemoryStore, reserve, complete, release}
use boilerplate_python_fasta.Idempotency.Capture.{Sent, settle, capture_all, no_capture}
use boilerplate_python_fasta.Prelude.{
  Option, ◌+◌, [], ℕ, List, ◌∷◌, Bool, ◌≤◌, All, some, suc, none, ◌<◌, zero, get_elem?, ◌≡◌,
}
use boilerplate_python_fasta.Idempotency.Base.{StoredResponse, IdempotencyRecord}
use mathlib.Core.Option.{none}

-- An execution of `_execute`. `deadline` is when its reservation expires; the code does not keep it.
pub record Execution : Type 0 where
  pub full_key : List ℕ
  pub fingerprint : List ℕ
  pub deadline : ℕ

-- `served` lists the keys, fingerprints and responses that were stored. The code does not keep it.
pub record System : Type 0 where
  pub now : ℕ
  pub store : MemoryStore
  pub running : List Execution
  pub served : List (List ℕ × List ℕ × StoredResponse)

abbrev pub start : MemoryStore → System
start store = record { now = 0; store = store; running = []; served = [] }

-- `reserve` of a store in memory, which does not fail.
abbrev pub reserve_memory :
    (now : ℕ) (key fingerprint : List ℕ)
    → MemoryStore
    → Option (Option IdempotencyRecord) × MemoryStore
reserve_memory now key fingerprint s =
    let (answer, s') = reserve now key fingerprint s in (some answer, s')

abbrev pub admitted : Admission × MemoryStore → System → System
admitted (executing key fingerprint, store) s = record s {
  store = store;
  running =
      record { full_key = key; fingerprint = fingerprint; deadline = s.now + store.reservation_ttl }
      ∷ s.running;
}
admitted (_, store) s = record s { store = store }

-- A request arrives.
abbrev pub handled :
    (sha : List ℕ → List ℕ) → IdempotencyConfig → Request → System → Admission × MemoryStore
handled sha config r s = handle sha (reserve_memory s.now) config r s.store

abbrev pub arrive : (sha : List ℕ → List ℕ) → IdempotencyConfig → Request → System → System
arrive sha config r s = admitted (handled sha config r s) s

abbrev pub without : {A : Type 0} → ℕ → List A → List A
without i [] = []
without zero (x ∷ xs) = xs
without (suc i) (x ∷ xs) = x ∷ without i xs

abbrev pub serve :
    (key fingerprint : List ℕ)
    → Option StoredResponse
    → List (List ℕ × List ℕ × StoredResponse)
    → List (List ℕ × List ℕ × StoredResponse)
serve key fingerprint none served = served
serve key fingerprint (some r) served = (key, fingerprint, r) ∷ served

abbrev pub settled : Execution → Option IdempotencyRecord → System → System
settled e none s = record s { store = release e.full_key s.store }
settled e (some r) s = record s {
  store = complete s.now e.full_key r s.store;
  served = serve e.full_key e.fingerprint r.response s.served;
}

-- The app is done with an execution: `raised` tells that it raised, `sent` is what it sent.
abbrev pub finish :
    (limit : ℕ) → (raised : Bool) (sent : List Sent) → (i : ℕ) → Execution → System → System
finish limit raised sent i e s =
    settled e (settle e.fingerprint raised (capture_all limit sent no_capture))
      (record s { running = without i s.running })

-- One step: the clock moves on, a request arrives, or the app is done with an execution.
pub data Step (sha : List ℕ → List ℕ) (config : IdempotencyConfig) (s : System)
    : System → Type 0 where
  tick : (later : ℕ) → s.now ≤ later → Step sha config s (record s { now = later })
  arrives : (r : Request) → Step sha config s (arrive sha config r s)
  finishes :
      (raised : Bool) (sent : List Sent) (i : ℕ) (e : Execution)
      → get_elem? s.running i ≡ some e
      → Step sha config s (finish config.max_response_body_bytes raised sent i e s)

pub data Reachable (sha : List ℕ → List ℕ) (config : IdempotencyConfig) (first : System)
    : System → Type 0 where
  here : Reachable sha config first first
  next :
      (s t : System)
      → Reachable sha config first s
      → Step sha config s t
      → Reachable sha config first t

-- No reservation of a running execution expires in a step, or in all steps.
abbrev pub IsTimelyStep :
    {sha : List ℕ → List ℕ} {config : IdempotencyConfig} {s t : System}
    → Step sha config s t
    → Type 0
IsTimelyStep {s = s} (tick later up) = All (λ e. later < e.deadline) s.running
IsTimelyStep (arrives r) = Unit
IsTimelyStep (finishes raised sent i e g) = Unit

abbrev pub IsTimely :
    {sha : List ℕ → List ℕ} {config : IdempotencyConfig} {s t : System}
    → Reachable sha config s t
    → Type 0
IsTimely here = Unit
IsTimely (next s t r q) = IsTimely r × IsTimelyStep q
