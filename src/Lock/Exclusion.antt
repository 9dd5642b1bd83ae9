-- ===== src/Lock/Exclusion.antt =====
-- Mutual exclusion of the leases of src/distributed_lock/memory.py.
use boilerplate_python_fasta.Prelude.Dict
use boilerplate_python_fasta.Prelude.{
  [], ◌∷◌, none, some, ℕ, ◌<◌, List, ◌≡◌, ◌≢◌, arith, ◌⊎◌, subst, String, sym, true, ◌+◌, Option,
  All, if◌then◌else◌, ◌==◌,
}
use boilerplate_python_fasta.Prelude.Dict.{get-put, get-remove, Dict}
use boilerplate_python_fasta.Lock.{
  acquire, extend, release, inspect, live, grant, granted, busy, Lease, ℕ, Backend, Held, List,
  Dict, String, validate_lock_name, true, counter, Option, released, renewed_for,
}
use boilerplate_python_fasta.Prelude.Text.{codes_discrete}
use boilerplate_python_fasta.Lock.Fencing.{
  Call, perform, run, lock, renew, unlock, look, wipe, log_of,
}

-- What a call must be to leave a lease alone: made before the lease expires, and not with the
-- lease's own token under its name.
abbrev pub IsForeign : Lease → Call → Type 0
IsForeign l (lock now started name owner ttl) = now < l.expires_at
IsForeign l (renew now started ttl lease) =
    (now < l.expires_at) × ((lease.name ≢ l.name) ⊎ (lease.token ≢ l.token))
IsForeign l (unlock now lease) =
    (now < l.expires_at) × ((lease.name ≢ l.name) ⊎ (lease.token ≢ l.token))
IsForeign l (look now later name) = now < l.expires_at
IsForeign l wipe = ⊥

-- The entry of a lease.
abbrev pub entry_of : Lease → Held
entry_of l = record { token = l.token; owner = l.owner; expires_at = l.expires_at }

abbrev pub IsHolding : Lease → Backend → Type 0
IsHolding l s = Dict.get codes_discrete l.name s.held ≡ some (entry_of l)

live_same :
    (now : ℕ) (l : Lease) (s : Backend)
    → now < l.expires_at
    → IsHolding l s
    → live now l.name s ≡ (some (entry_of l), s)
unfolding live
live_same now l s h k = ground arith

IsHolding-by : (l : Lease) (s s' : Backend) → s' ≡ s → IsHolding l s → IsHolding l s'
IsHolding-by l s s' e k = subst (IsHolding l) (sym e) k

IsHolding-live :
    (now : ℕ) (name : List ℕ) (l : Lease) (s : Backend)
    → now < l.expires_at
    → IsHolding l s
    → IsHolding l (live now name s).1
unfolding live
IsHolding-live now name l s h k = ground (arith, get-remove codes_discrete name l.name s.held)

IsHolding-other_put :
    (l : Lease) (name : List ℕ) (e : Held) (d : Dict (List ℕ) Held)
    → (name ≢ l.name)
    → Dict.get codes_discrete l.name d ≡ some (entry_of l)
    → Dict.get codes_discrete l.name (Dict.put codes_discrete name e d) ≡ some (entry_of l)
IsHolding-other_put l name e d ne k = ground (arith, get-put codes_discrete name l.name e d)

IsHolding-other_remove :
    (l : Lease) (name : List ℕ) (d : Dict (List ℕ) Held)
    → (name ≢ l.name)
    → Dict.get codes_discrete l.name d ≡ some (entry_of l)
    → Dict.get codes_discrete l.name (Dict.remove codes_discrete name d) ≡ some (entry_of l)
IsHolding-other_remove l name d ne k = ground (arith, get-remove codes_discrete name l.name d)

acquire_busy :
    (now started : ℕ) (owner : String) (ttl : ℕ) (l : Lease) (s : Backend)
    → now < l.expires_at
    → IsHolding l s
    → validate_lock_name l.name ≡ true
    → acquire now started l.name owner ttl s ≡ (busy, s)
unfolding acquire
acquire_busy now started owner ttl l s h k v = ground (arith, live_same now l s h k)

IsHolding-acquire :
    (now started : ℕ) (name : List ℕ) (owner : String) (ttl : ℕ) (l : Lease) (s : Backend)
    → now < l.expires_at
    → IsHolding l s
    → IsHolding l (acquire now started name owner ttl s).1
unfolding acquire grant
IsHolding-acquire now started name owner ttl l s h k = elim (codes_discrete name l.name) [
  | yes e ↦
      subst (λ n. IsHolding l (acquire now started n owner ttl s).1) (sym e)
        (ground (arith, live_same now l s h k))
  | no ne ↦ ground (
    arith,
    IsHolding-live now name l s h k,
    IsHolding-other_put l name
        (record {
          token = counter (live now name s).1 name + 1;
          owner = owner;
          expires_at = started + ttl;
        })
        (live now name s).1.held ne,
  )
]

live_named :
    (now : ℕ) (name : List ℕ) (l : Lease) (s : Backend)
    → now < l.expires_at
    → IsHolding l s
    → name ≡ l.name
    → live now name s ≡ (some (entry_of l), s)
live_named now name l s h k e =
    subst (λ n. live now n s ≡ (some (entry_of l), s)) (sym e) (live_same now l s h k)

IsHolding-extend :
    (now started ttl : ℕ) (lease : Lease) (l : Lease) (s : Backend)
    → now < l.expires_at
    → (lease.name ≢ l.name) ⊎ (lease.token ≢ l.token)
    → IsHolding l s
    → IsHolding l (extend now started ttl lease s).1
unfolding extend
IsHolding-extend now started ttl lease l s h o k = elim (codes_discrete lease.name l.name) [
  | yes e ↦ ground (arith, live_named now lease.name l s h k e)
  | no ne ↦
      elim (live now lease.name s).0
        as (λ f. IsHolding l (
          (elim f as (λ x. Option Lease × Backend) [
            | none ↦ (none, (live now lease.name s).1)
            | some h' ↦
                if h'.token == lease.token
                then (
                  some (renewed_for ttl (started + ttl) lease),
                  record (live now lease.name s).1 {
                    held =
                        Dict.put codes_discrete lease.name
                          (record h' { expires_at = started + ttl }) (live now lease.name s).1.held;
                  },
                )
                else (none, (live now lease.name s).1)
          ]).1)) [
            | none ↦ IsHolding-live now lease.name l s h k
            | some h' ↦ ground (
              arith,
              IsHolding-live now lease.name l s h k,
              IsHolding-other_put l lease.name (record h' { expires_at = started + ttl })
                  (live now lease.name s).1.held ne,
            )
          ]
]

IsHolding-release :
    (now : ℕ) (lease : Lease) (l : Lease) (s : Backend)
    → now < l.expires_at
    → (lease.name ≢ l.name) ⊎ (lease.token ≢ l.token)
    → IsHolding l s
    → IsHolding l (release now lease s).1
unfolding release
IsHolding-release now lease l s h o k = elim (codes_discrete lease.name l.name) [
  | yes e ↦ ground (arith, live_named now lease.name l s h k e)
  | no ne ↦ ground (
    arith,
    IsHolding-live now lease.name l s h k,
    IsHolding-other_remove l lease.name (live now lease.name s).1.held ne,
  )
]

IsHolding-inspect :
    (now later : ℕ) (name : List ℕ) (l : Lease) (s : Backend)
    → now < l.expires_at
    → IsHolding l s
    → IsHolding l (inspect now later name s).1
unfolding inspect
IsHolding-inspect now later name l s h k = ground (arith, IsHolding-live now name l s h k)

IsHolding-perform :
    (c : Call) (l : Lease) (s : Backend) → IsForeign l c → IsHolding l s → IsHolding l (perform c s)
unfolding perform
IsHolding-perform (lock now started name owner ttl) l s f k =
    IsHolding-acquire now started name owner ttl l s f k
IsHolding-perform (renew now started ttl lease) l s f k =
    IsHolding-extend now started ttl lease l s f.0 f.1 k
IsHolding-perform (unlock now lease) l s f k = IsHolding-release now lease l s f.0 f.1 k
IsHolding-perform (look now later name) l s f k = IsHolding-inspect now later name l s f k
IsHolding-perform wipe l s f k = absurd f

IsHolding-run :
    (calls : List Call) (log : List Lease) (l : Lease) (s : Backend)
    → All (IsForeign l) calls
    → IsHolding l s
    → IsHolding l (run calls log s).1
unfolding run
IsHolding-run [] log l s f k = k
IsHolding-run (c ∷ rest) log l s f k =
    IsHolding-run rest (log_of c s log) l (perform c s) f.1 (IsHolding-perform c l s f.0 k)

grant_holds :
    (started ttl : ℕ) (name : List ℕ) (owner : String) (s : Backend) (l : Lease)
    → (grant started ttl name owner s).0 ≡ granted l
    → (l.name ≡ name) × IsHolding l (grant started ttl name owner s).1
unfolding grant
grant_holds started ttl name owner s l h = ground (
  arith,
  Dict.get-put_same codes_discrete name
      (record { token = counter s name + 1; owner = owner; expires_at = started + ttl }) s.held,
)

IsHolding-granted :
    (now started : ℕ) (name : List ℕ) (owner : String) (ttl : ℕ) (s : Backend) (l : Lease)
    → (acquire now started name owner ttl s).0 ≡ granted l
    → IsHolding l (acquire now started name owner ttl s).1 × (validate_lock_name l.name ≡ true)
unfolding acquire
IsHolding-granted now started name owner ttl s l h =
    ground (arith, grant_holds started ttl name owner (live now name s).1 l)

release_holder :
    (now : ℕ) (l : Lease) (s : Backend)
    → now < l.expires_at
    → IsHolding l s
    → (release now l s).0 ≡ released
unfolding release
release_holder now l s h k = ground (arith, live_same now l s h k)

-- Once a lease is granted, and after any calls that are made before it expires and that do not
-- carry its token under its name, none of them a `clear`, another `acquire` of its name before the
-- expiry gets no lease and changes nothing, and the holder can still release it.
pub exclusive_until_expiry :
    (now started : ℕ) (name : List ℕ) (owner : String) (ttl : ℕ) (s : Backend) (l : Lease)
    → (acquire now started name owner ttl s).0 ≡ granted l
    → (calls : List Call) → All (IsForeign l) calls
    → (later later' : ℕ) (other : String) (ttl' : ℕ) → later < l.expires_at
    → let s' = (run calls [] (acquire now started name owner ttl s).1).1 in
      (acquire later later' l.name other ttl' s' ≡ (busy, s')) × ((release later l s').0 ≡ released)
exclusive_until_expiry now started name owner ttl s l g calls f later later' other ttl' h =
    let (k, v) = IsHolding-granted now started name owner ttl s l g in
    let kept = IsHolding-run calls [] l (acquire now started name owner ttl s).1 f k in
    (acquire_busy later later' other ttl' l _ h kept v, release_holder later l _ h kept)
