-- ===== src/Idempotency/Records.antt =====
-- What a request does to the store of src/idempotency/memory.py.
use mathlib.Core.Option.{some-injective}
use boilerplate_python_fasta.Prelude.Dict
use boilerplate_python_fasta.Prelude.Dict.{Dict}
use boilerplate_python_fasta.Prelude.Text.{codes_discrete}
use boilerplate_python_fasta.Idempotency.Memory.{
  MemoryStore, reserve, release, live, unexpired, store_record, reserve_found,
}
use boilerplate_python_fasta.Idempotency.Middleware.{
  refused, passed, Admission, Request, handle, admit, IdempotencyConfig, handle_header, handle_key,
  handle_buffered, Refusal, key_invalid, applies_to,
}
use boilerplate_python_fasta.Idempotency.System.{reserve_memory}
use boilerplate_python_fasta.Prelude.{
  refl, List, ℕ, none, Option, some, ◌≡◌, arith, ◌+◌, ◌≢◌, ◌<◌, ◌≤◌, Bool-cases, ◌∙◌, subst, inl,
  sym, not, leb, ◌||◌, inr, ap, [],
}
use boilerplate_python_fasta.Idempotency.Base.{
  IdempotencyRecord, KeyError, storage_key, scope_fingerprint, request_fingerprint,
}
use boilerplate_python_fasta.Idempotency.Buffer.{Buffered, buffer_request}

abbrev pub entry : (key : List ℕ) → MemoryStore → Option (IdempotencyRecord × ℕ)
entry key s = Dict.get codes_discrete key s.records

abbrev pub reservation : (fingerprint : List ℕ) → IdempotencyRecord
reservation fingerprint = record { fingerprint = fingerprint; response = none }

-- A change of the entry of one key.
pub record Writes (key : List ℕ) (e : Option (IdempotencyRecord × ℕ)) (s t : MemoryStore)
    : Type 0 where
  pub written : entry key t ≡ e
  pub others : (j : List ℕ) → key ≢ j → entry j t ≡ entry j s
  pub same_record_ttl : t.record_ttl ≡ s.record_ttl
  pub same_reservation_ttl : t.reservation_ttl ≡ s.reservation_ttl

pub store_record-Writes :
    (key : List ℕ) (r : IdempotencyRecord) (expires_at : ℕ) (s : MemoryStore)
    → Writes key (some (r, expires_at)) s (store_record key r expires_at s)
store_record-Writes key r expires_at s = record {
  written = Dict.get-put_same codes_discrete key (r, expires_at) s.records;
  others = λ j n. Dict.get-put_other codes_discrete key j (r, expires_at) s.records n;
  same_record_ttl = refl;
  same_reservation_ttl = refl;
}

pub release-Writes : (key : List ℕ) (s : MemoryStore) → Writes key none s (release key s)
unfolding release
release-Writes key s = record {
  written = Dict.get-remove_same codes_discrete key s.records;
  others = λ j n. Dict.get-remove_other codes_discrete key j s.records n;
  same_record_ttl = refl;
  same_reservation_ttl = refl;
}

-- What `reserve` does: it finds a record that has not expired, or makes a reservation.
pub data Reserved (now : ℕ) (key fingerprint : List ℕ) (s : MemoryStore)
    : Option IdempotencyRecord × MemoryStore → Type 0 where
  found :
      (r : IdempotencyRecord) (expires_at : ℕ)
      → entry key s ≡ some (r, expires_at)
      → now < expires_at
      → Reserved now key fingerprint s (some r, s)
  claimed :
      (t : MemoryStore)
      → ((r : IdempotencyRecord) (expires_at : ℕ)
          → entry key s ≡ some (r, expires_at)
          → expires_at ≤ now)
      → Writes key (some (reservation fingerprint, now + s.reservation_ttl)) s t
      → Reserved now key fingerprint s (none, t)

-- A write after the removal of the same key.
over_removed :
    (key : List ℕ) (e : Option (IdempotencyRecord × ℕ)) (s t : MemoryStore)
    → Writes key e (release key s) t
    → Writes key e s t
unfolding release
over_removed key e s t w = record {
  written = w.written;
  others = λ j n. w.others j n ∙ (release-Writes key s).others j n;
  same_record_ttl = w.same_record_ttl;
  same_reservation_ttl = w.same_reservation_ttl;
}

expired :
    (now : ℕ) (key : List ℕ) (r : IdempotencyRecord) (x : ℕ) (s : MemoryStore)
    → entry key s ≡ some (r, x)
    → x ≤ now
    → (r' : IdempotencyRecord) (x' : ℕ) → entry key s ≡ some (r', x')
    → x' ≤ now
expired now key r x s e l r' x' h =
    subst (λ y. y ≤ now) (ap (λ (p : IdempotencyRecord × ℕ). p.1) (some-injective _ _ (sym e ∙ h)))
      l

reserve_entry :
    (now : ℕ) (key fingerprint : List ℕ) (s : MemoryStore) (o : Option (IdempotencyRecord × ℕ))
    → entry key s ≡ o
    → Reserved now key fingerprint s (reserve_found now key fingerprint (unexpired now key o s))
unfolding release
reserve_entry now key fingerprint s none e =
    claimed (store_record key (reservation fingerprint) (now + s.reservation_ttl) s) (λ r x h. cc)
      (store_record-Writes key (reservation fingerprint) (now + s.reservation_ttl) s)
reserve_entry now key fingerprint s (some (r, x)) e = elim (Bool-cases (leb x now)) [
  | inl b ↦ rw b (
      claimed _ (expired now key r x s e (ground (arith, b))) (
        over_removed key (some (reservation fingerprint, now + s.reservation_ttl)) s _ (
          store_record-Writes key (reservation fingerprint) (now + s.reservation_ttl)
            (release key s))))
  | inr b ↦ rw b (found r x e (ground (arith, b)))
]

pub reserve-Reserved :
    (now : ℕ) (key fingerprint : List ℕ) (s : MemoryStore)
    → Reserved now key fingerprint s (reserve now key fingerprint s)
unfolding reserve live
reserve-Reserved now key fingerprint s = reserve_entry now key fingerprint s (entry key s) refl

-- The answers that neither execute nor replay.
pub data IsTurnedAway : Admission → Type 0 where
  passed_on : IsTurnedAway passed
  refused_with : (e : Refusal) → IsTurnedAway (refused e)

-- Where a request's record is, and what it is compared by.
abbrev pub full_key_of : (sha : List ℕ → List ℕ) → Request → (key : List ℕ) → List ℕ
full_key_of sha r key = storage_key (scope_fingerprint sha r.authorization) key

abbrev pub fingerprint_of : (sha : List ℕ → List ℕ) → Request → (body : List ℕ) → List ℕ
fingerprint_of sha r body = request_fingerprint sha r.method r.path r.query body r.content_type

-- The body as it was buffered.
abbrev pub body_of : IdempotencyConfig → Request → List ℕ
body_of config r = (buffer_request config.max_request_body_bytes [] r.messages).body

-- What a request does: nothing to the store, or a `reserve`.
pub data Handled (sha : List ℕ → List ℕ) (config : IdempotencyConfig) (now : ℕ) (r : Request)
    (s : MemoryStore) : Admission × MemoryStore → Type 0 where
  skipped : (a : Admission) → IsTurnedAway a → Handled sha config now r s (a, s)
  reserved :
      (key body : List ℕ)
      → r.idempotency_key ≡ some key
      → body ≡ body_of config r
      → Handled sha config now r s (
        admit config
            (full_key_of sha r key)
            (fingerprint_of sha r body)
            (some (reserve now (full_key_of sha r key) (fingerprint_of sha r body) s).0),
        (reserve now (full_key_of sha r key) (fingerprint_of sha r body) s).1,
      )

buffered-Handled :
    (sha : List ℕ → List ℕ) (config : IdempotencyConfig) (now : ℕ) (r : Request) (s : MemoryStore)
    (key : List ℕ) (b : Buffered)
    → r.idempotency_key ≡ some key
    → b.body ≡ body_of config r
    → Handled sha config now r s (handle_buffered sha (reserve_memory now) config r key b s)
buffered-Handled sha config now r s key b e z = elim (Bool-cases b.truncated) [
  | inl t ↦ rw t (skipped passed passed_on)
  | inr t ↦ rw t (reserved key b.body e z)
]

key-Handled :
    (sha : List ℕ → List ℕ) (config : IdempotencyConfig) (now : ℕ) (r : Request) (s : MemoryStore)
    (key : List ℕ) (o : Option KeyError)
    → r.idempotency_key ≡ some key
    → Handled sha config now r s (handle_key sha (reserve_memory now) config r key o s)
key-Handled sha config now r s key (some x) e =
    skipped (refused (key_invalid x)) (refused_with (key_invalid x))
key-Handled sha config now r s key none e =
    buffered-Handled sha config now r s key
      (buffer_request config.max_request_body_bytes [] r.messages) e refl

header-Handled :
    (sha : List ℕ → List ℕ) (config : IdempotencyConfig) (now : ℕ) (r : Request) (s : MemoryStore)
    (o : Option (List ℕ))
    → r.idempotency_key ≡ o
    → Handled sha config now r s (handle_header sha (reserve_memory now) config r o s)
header-Handled sha config now r s none e = skipped passed passed_on
header-Handled sha config now r s (some key) e = key-Handled sha config now r s key _ e

pub handle-Handled :
    (sha : List ℕ → List ℕ) (config : IdempotencyConfig) (now : ℕ) (r : Request) (s : MemoryStore)
    → Handled sha config now r s (handle sha (reserve_memory now) config r s)
unfolding handle
handle-Handled sha config now r s = elim (Bool-cases (not r.is_http || not config.enabled)) [
  | inl h ↦ rw h (skipped passed passed_on)
  | inr h ↦ elim (Bool-cases (applies_to config r)) [
    | inl a ↦ rw (h, a) (header-Handled sha config now r s r.idempotency_key refl)
    | inr a ↦ rw (h, a) (skipped passed passed_on)
  ]
]
