-- ===== src/Idempotency/Memory.antt =====
-- `InMemoryIdempotencyStore` of src/idempotency/memory.py. Its lock makes each method one step, and
-- `now` is the reading of the monotonic clock.
use boilerplate_python_fasta.Prelude.Dict
use boilerplate_python_fasta.Prelude.Dict.{Dict}
use boilerplate_python_fasta.Prelude.{List, ℕ, Option, ◌+◌, some, none, if◌then◌else◌, leb}
use boilerplate_python_fasta.Idempotency.Base.{IdempotencyRecord}
use boilerplate_python_fasta.Prelude.Text.{codes_discrete}
use mathlib.Core.Option.{none}

pub record MemoryStore : Type 0 where
  pub records : Dict (List ℕ) (IdempotencyRecord × ℕ)
  pub record_ttl : ℕ
  pub reservation_ttl : ℕ

abbrev pub unexpired :
    (now : ℕ) (key : List ℕ)
    → Option (IdempotencyRecord × ℕ)
    → MemoryStore
    → Option IdempotencyRecord × MemoryStore
unexpired now key none s = (none, s)
unexpired now key (some (r, expires_at)) s =
    if leb expires_at now
    then (none, record s { records = Dict.remove codes_discrete key s.records })
    else (some r, s)

-- `_live`
unfoldable pub live :
    (now : ℕ) (key : List ℕ) → MemoryStore → Option IdempotencyRecord × MemoryStore
live now key s = unexpired now key (Dict.get codes_discrete key s.records) s

abbrev pub store_record :
    (key : List ℕ) → IdempotencyRecord → (expires_at : ℕ) → MemoryStore → MemoryStore
store_record key r expires_at s = record s {
  records = Dict.put codes_discrete key (r, expires_at) s.records;
}

abbrev pub reserve_found :
    (now : ℕ) (key fingerprint : List ℕ)
    → Option IdempotencyRecord × MemoryStore
    → Option IdempotencyRecord × MemoryStore
reserve_found now key fingerprint (some existing, s) = (some existing, s)
reserve_found now key fingerprint (none, s) = (
  none,
  store_record key (record { fingerprint = fingerprint; response = none }) (now + s.reservation_ttl)
      s,
)

unfoldable pub reserve :
    (now : ℕ) (key fingerprint : List ℕ) → MemoryStore → Option IdempotencyRecord × MemoryStore
reserve now key fingerprint s = reserve_found now key fingerprint (live now key s)

unfoldable pub complete : (now : ℕ) (key : List ℕ) → IdempotencyRecord → MemoryStore → MemoryStore
complete now key r s = store_record key r (now + s.record_ttl) s

unfoldable pub release : (key : List ℕ) → MemoryStore → MemoryStore
release key s = record s { records = Dict.remove codes_discrete key s.records }

unfoldable pub get : (now : ℕ) (key : List ℕ) → MemoryStore → Option IdempotencyRecord × MemoryStore
get now key s = live now key s
