-- ===== src/Lock/Fencing.antt =====
-- The fencing tokens that a backend hands out (src/distributed_lock/memory.py, base.py).
use boilerplate_python_fasta.Prelude.Dict
use boilerplate_python_fasta.Prelude.{
  [], ◌∷◌, refl, ℕ, List, ◌≤◌, String, ◌≡◌, All, ite, ◌+◌, arith, ◌<◌, All-map,
}
use boilerplate_python_fasta.Lock.{
  acquire, extend, release, inspect, clear, live, grant, Backend, Acquired, ℕ, List, counter,
  String, Lease, granted, or_zero, init, busy, invalid_name,
}
use boilerplate_python_fasta.Prelude.Text.{codes_discrete}
use boilerplate_python_fasta.Prelude.Dict.{get-put}

-- One call of a method, with the readings of the clock.
pub data Call : Type 0 where
  lock : (now started : ℕ) → List ℕ → (owner : String) → (ttl : ℕ) → Call
  renew : (now started ttl : ℕ) → Lease → Call
  unlock : (now : ℕ) → Lease → Call
  look : (now later : ℕ) → List ℕ → Call
  wipe : Call

unfoldable pub perform : Call → Backend → Backend
perform (lock now started name owner ttl) s = (acquire now started name owner ttl s).1
perform (renew now started ttl lease) s = (extend now started ttl lease s).1
perform (unlock now lease) s = (release now lease s).1
perform (look now later name) s = (inspect now later name s).1
perform wipe s = clear s

-- The leases that a call adds to a log, newest first.
abbrev noted : Acquired → List Lease → List Lease
noted (granted lease) log = lease ∷ log
noted _ log = log

unfoldable pub log_of : Call → Backend → List Lease → List Lease
log_of (lock now started name owner ttl) s log = noted (acquire now started name owner ttl s).0 log
log_of _ s log = log

unfoldable pub run : List Call → List Lease → Backend → List Lease × Backend
run [] log s = (log, s)
run (c ∷ rest) log s = run rest (log_of c s log) (perform c s)

-- The token of a lease, if it is a lease of this name, and 0 otherwise: tokens begin at 1.
abbrev pub token_for : List ℕ → Lease → ℕ
token_for name lease = ite (codes_discrete lease.name name) lease.token 0

-- Every lease of the log carries a token above those of all earlier leases of its name.
abbrev pub IsFenced : List Lease → Type 0
IsFenced [] = Unit
IsFenced (lease ∷ log) =
    All (λ earlier. token_for lease.name earlier < lease.token) log × IsFenced log

-- The counter of each name has reached every token of the log.
record Covers (log : List Lease) (s : Backend) : Type 0 where
  reached : All (λ lease. lease.token ≤ counter s lease.name) log
  fenced : IsFenced log

counter-live :
    (now : ℕ) (name n : List ℕ) (s : Backend) → counter (live now name s).1 n ≡ counter s n
unfolding live counter
counter-live now name n s = ground arith

counter-grant :
    (started ttl : ℕ) (name : List ℕ) (owner : String) (n : List ℕ) (s : Backend)
    → counter (grant started ttl name owner s).1 n ≡ counter s n + ite (codes_discrete name n) 1 0
unfolding grant counter
counter-grant started ttl name owner n s = ground (
  arith,
  get-put codes_discrete name n (or_zero (Dict.get codes_discrete name s.counters) + 1) s.counters,
)

-- What `acquire` grants, it grants with a token above the counter that it found.
acquire_counts :
    (now started : ℕ) (name : List ℕ) (owner : String) (ttl : ℕ) (n : List ℕ) (s : Backend)
    → counter s n ≤ counter (acquire now started name owner ttl s).1 n
unfolding acquire
acquire_counts now started name owner ttl n s =
    ground
      (arith, counter-live now name n s, counter-grant started ttl name owner n (live now name s).1)

grant_lem :
    (started ttl : ℕ) (name : List ℕ) (owner : String) (s : Backend) (lease : Lease)
    → (grant started ttl name owner s).0 ≡ granted lease
    → (lease.name ≡ name) × (lease.token ≡ counter s name + 1)
unfolding grant
grant_lem started ttl name owner s lease h = ground arith

token_for-lt :
    (s : Backend) (l lease : Lease)
    → l.token ≤ counter s l.name
    → lease.token ≡ counter s lease.name + 1
    → token_for lease.name l < lease.token
token_for-lt s l lease k e = ground arith

acquire_grants :
    (now started : ℕ) (name : List ℕ) (owner : String) (ttl : ℕ) (s : Backend) (lease : Lease)
    → (acquire now started name owner ttl s).0 ≡ granted lease
    → (lease.token ≡ counter s lease.name + 1)
      × (lease.token ≤ counter (acquire now started name owner ttl s).1 lease.name)
unfolding acquire
acquire_grants now started name owner ttl s lease h = ground (
  arith,
  grant_lem started ttl name owner (live now name s).1 lease,
  counter-live now name name s,
  counter-live now name lease.name s,
  counter-grant started ttl name owner lease.name (live now name s).1,
)

counters-extend :
    (now started ttl : ℕ) (lease : Lease) (s : Backend)
    → (extend now started ttl lease s).1.counters ≡ s.counters
unfolding extend live
counters-extend now started ttl lease s = ground arith

counters-release :
    (now : ℕ) (lease : Lease) (s : Backend) → (release now lease s).1.counters ≡ s.counters
unfolding release live
counters-release now lease s = ground arith

counters-inspect :
    (now later : ℕ) (name : List ℕ) (s : Backend)
    → (inspect now later name s).1.counters ≡ s.counters
unfolding inspect live
counters-inspect now later name s = ground arith

counter_by : (n : List ℕ) (s s' : Backend) → s'.counters ≡ s.counters → counter s n ≤ counter s' n
unfolding counter
counter_by n s s' e = rw e (omega arith)

-- No call lowers a counter, `clear` included.
pub perform_counts : (c : Call) (n : List ℕ) (s : Backend) → counter s n ≤ counter (perform c s) n
unfolding perform clear
perform_counts (lock now started name owner ttl) n s = acquire_counts now started name owner ttl n s
perform_counts (renew now started ttl lease) n s =
    counter_by n s _ (counters-extend now started ttl lease s)
perform_counts (unlock now lease) n s = counter_by n s _ (counters-release now lease s)
perform_counts (look now later name) n s = counter_by n s _ (counters-inspect now later name s)
perform_counts wipe n s = counter_by n s _ refl

-- A new lease above everything that the counters have reached.
Covers-noted :
    (a : Acquired) (log : List Lease) (s s' : Backend)
    → ((n : List ℕ) → counter s n ≤ counter s' n)
    → ((lease : Lease)
        → a ≡ granted lease
        → (lease.token ≡ counter s lease.name + 1) × (lease.token ≤ counter s' lease.name))
    → Covers log s
    → Covers (noted a log) s'
Covers-noted (granted lease) log s s' up new c = record {
  reached = ((new lease refl).1, All-map _ _ (λ l k. omega (arith, k, up l.name)) log c.reached);
  fenced =
      (All-map _ _ (λ l k. token_for-lt s l lease k (new lease refl).0) log c.reached, c.fenced);
}
Covers-noted busy log s s' up new c = record {
  reached = All-map _ _ (λ l k. omega (arith, k, up l.name)) log c.reached;
  fenced = c.fenced;
}
Covers-noted invalid_name log s s' up new c = record {
  reached = All-map _ _ (λ l k. omega (arith, k, up l.name)) log c.reached;
  fenced = c.fenced;
}

Covers-perform :
    (c : Call) (log : List Lease) (s : Backend)
    → Covers log s
    → Covers (log_of c s log) (perform c s)
unfolding perform log_of
Covers-perform (lock now started name owner ttl) log s k =
    Covers-noted (acquire now started name owner ttl s).0 log s _
      (λ n. acquire_counts now started name owner ttl n s)
      (acquire_grants now started name owner ttl s) k
Covers-perform (renew now started ttl lease) log s k =
    Covers-noted busy log s _ (λ n. perform_counts (renew now started ttl lease) n s)
      (λ l e. ground arith) k
Covers-perform (unlock now lease) log s k =
    Covers-noted busy log s _ (λ n. perform_counts (unlock now lease) n s) (λ l e. ground arith) k
Covers-perform (look now later name) log s k =
    Covers-noted busy log s _ (λ n. perform_counts (look now later name) n s) (λ l e. ground arith)
      k
Covers-perform wipe log s k =
    Covers-noted busy log s _ (λ n. perform_counts wipe n s) (λ l e. ground arith) k

Covers-run :
    (calls : List Call) (log : List Lease) (s : Backend)
    → Covers log s
    → Covers (run calls log s).0 (run calls log s).1
unfolding run
Covers-run [] log s k = k
Covers-run (c ∷ rest) log s k =
    Covers-run rest (log_of c s log) (perform c s) (Covers-perform c log s k)

-- Whatever the calls and the clock, with expiry, release and `clear` between them, each lease that
-- is granted carries a token greater than every earlier lease of the same name.
pub run-IsFenced : (calls : List Call) → IsFenced (run calls [] init).0
run-IsFenced calls = (Covers-run calls [] init (record { reached = tt; fenced = tt })).fenced
