-- ===== src/Lock.antt =====
-- `InMemoryLockBackend` of src/distributed_lock/memory.py and the values of
-- src/distributed_lock/base.py. A name is its code points; each reading of the clock is an
-- argument. The `asyncio.Lock` makes each method one step.
pub mod Names
pub mod Fencing
pub mod Exclusion
pub mod Writes
use boilerplate_python_fasta.Prelude.Dict
use boilerplate_python_fasta.Prelude.Dict.{Dict}
use boilerplate_python_fasta.Prelude.Pattern.{match_plus}
use boilerplate_python_fasta.Prelude.{
  [], ◌∷◌, none, some, ℕ_discrete, ℕ, Option, List, ◌-◌, String, if◌then◌else◌, Bool, ◌+◌, leb,
  ◌==◌, length, true, false, ltb, ◌&&◌, not,
}
use boilerplate_python_fasta.Prelude.Text.{codes_discrete}

-- `validate_lock_name`, whose pattern is `^[\x21-\x7e]+$`; `true` where it returns the name.
abbrev pub is_printable : ℕ → Bool
is_printable c = leb 33 c && leb c 126

abbrev pub max_name_length : ℕ
max_name_length = 255

unfoldable pub validate_lock_name : List ℕ → Bool
validate_lock_name name =
    if length name == 0
    then false
    else if ltb max_name_length (length name)
    then false
    else match_plus is_printable name

pub record Held : Type 0 where
  pub token : ℕ
  pub owner : String
  pub expires_at : ℕ

pub record Lease : Type 0 where
  pub name : List ℕ
  pub token : ℕ
  pub owner : String
  pub ttl_seconds : ℕ
  pub expires_at : ℕ

unfoldable pub remaining : ℕ → Lease → ℕ
remaining now lease = lease.expires_at - now

unfoldable pub is_expired : ℕ → Lease → Bool
is_expired now lease = leb lease.expires_at now

unfoldable pub renewed_for : (ttl_seconds expires_at : ℕ) → Lease → Lease
renewed_for ttl_seconds expires_at lease = record lease {
  ttl_seconds = ttl_seconds;
  expires_at = expires_at;
}

pub data ReleaseOutcome : Type 0 where
  released expired not_owner : ReleaseOutcome

pub record LockState : Type 0 where
  pub name : List ℕ
  pub token : ℕ
  pub owner : String
  pub ttl_seconds : ℕ

pub record Backend : Type 0 where
  pub held : Dict (List ℕ) Held
  pub counters : Dict (List ℕ) ℕ

abbrev pub init : Backend
init = record { held = []; counters = [] }

-- `_live`: an expired entry is deleted where it is found.
unfoldable pub live : (now : ℕ) → List ℕ → Backend → Option Held × Backend
live now name s = elim (Dict.get codes_discrete name s.held) [
  | none ↦ (none, s)
  | some h ↦
      if leb h.expires_at now
      then (none, record s { held = Dict.remove codes_discrete name s.held })
      else (some h, s)
]

abbrev or_zero : Option ℕ → ℕ
or_zero none = 0
or_zero (some n) = n

-- `self._counters.get(name, 0)`
unfoldable pub counter : Backend → List ℕ → ℕ
counter s name = or_zero (Dict.get codes_discrete name s.counters)

-- What `acquire` does: a lease, `None`, or `LockNameInvalidError`.
pub data Acquired : Type 0 where
  granted : Lease → Acquired
  busy invalid_name : Acquired

unfoldable pub grant :
    (started ttl : ℕ) (name : List ℕ) (owner : String) → Backend → Acquired × Backend
grant started ttl name owner s =
    let token = counter s name + 1 in
    (
      granted (record {
        name = name;
        token = token;
        owner = owner;
        ttl_seconds = ttl;
        expires_at = started + ttl;
      }),
      record {
        counters = Dict.put codes_discrete name token s.counters;
        held =
            Dict.put codes_discrete name
              (record { token = token; owner = owner; expires_at = started + ttl }) s.held;
      },
    )

unfoldable pub acquire :
    (now started : ℕ) (name : List ℕ) (owner : String) (ttl : ℕ) → Backend → Acquired × Backend
acquire now started name owner ttl s =
    if validate_lock_name name
    then (let (found, s') = live now name s in
        elim found [ none ↦ grant started ttl name owner s' | some h ↦ (busy, s') ])
    else (invalid_name, s)

unfoldable pub extend : (now started ttl : ℕ) → Lease → Backend → Option Lease × Backend
extend now started ttl lease s =
    let (found, s') = live now lease.name s in
    elim found [
      | none ↦ (none, s')
      | some h ↦
          if h.token == lease.token
          then (
            some (renewed_for ttl (started + ttl) lease),
            record s' {
              held =
                  Dict.put codes_discrete lease.name (record h { expires_at = started + ttl })
                    s'.held;
            },
          )
          else (none, s')
    ]

unfoldable pub release : (now : ℕ) → Lease → Backend → ReleaseOutcome × Backend
release now lease s =
    let (found, s') = live now lease.name s in
    elim found [
      | none ↦ (expired, s')
      | some h ↦
          if h.token == lease.token
          then (released, record s' { held = Dict.remove codes_discrete lease.name s'.held })
          else (not_owner, s')
    ]

unfoldable pub inspect : (now later : ℕ) → List ℕ → Backend → Option LockState × Backend
inspect now later name s =
    let (found, s') = live now name s in
    elim found [
      | none ↦ (none, s')
      | some h ↦ (
        some (record {
          name = name;
          token = h.token;
          owner = h.owner;
          ttl_seconds = h.expires_at - later;
        }),
        s',
      )
    ]

-- `clear` keeps the counters.
unfoldable pub clear : Backend → Backend
clear s = record s { held = [] }

-- `fence_is_current`; `none` is no token accepted so far.
unfoldable pub fence_is_current : ℕ → Option ℕ → Bool
fence_is_current token none = true
fence_is_current token (some last) = ltb last token

-- `true` where it returns, and `StaleFencingTokenError` otherwise.
unfoldable pub require_fence : ℕ → Option ℕ → Bool
require_fence token last_accepted =
    if not (fence_is_current token last_accepted) then false else true
