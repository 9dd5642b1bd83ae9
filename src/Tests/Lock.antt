-- ===== src/Tests/Lock.antt =====
-- Runs of the lock of src/distributed_lock/memory.py.
use boilerplate_python_fasta.Prelude.{refl, [], ◌∷◌, arith, List, ◌≡◌, ℕ, inr}
use boilerplate_python_fasta.Lock.{
  counter, init, acquire, release, validate_lock_name, granted, busy, grant, live, Lease, released,
}
use boilerplate_python_fasta.Prelude.Dict
use boilerplate_python_fasta.Prelude.Pattern.{match_plus, match_star}
use boilerplate_python_fasta.Lock.Fencing.{
  Call, run, run-IsFenced, lock, unlock, look, wipe, IsFenced, Call,
}
use boilerplate_python_fasta.Lock.Exclusion.{exclusive_until_expiry}

abbrev job : List ℕ
job = b'j' ∷ b'o' ∷ b'b' ∷ []

abbrev first_lease : Lease
first_lease = record { name = job; token = 1; owner = "a"; ttl_seconds = 10; expires_at = 15 }

abbrev contention : List Call
contention = lock 6 6 job "b" 10 ∷ look 7 7 job ∷ unlock 8 (record first_lease { token = 9 }) ∷ []

first_granted : (acquire 5 5 job "a" 10 init).0 ≡ granted first_lease
unfolding acquire grant live validate_lock_name match_plus match_star Dict.get counter
first_granted = refl

run-IsFenced_example :
    IsFenced (run (lock 5 5 job "a" 10 ∷ wipe ∷ lock 6 6 job "b" 10 ∷ []) [] init).0
run-IsFenced_example = run-IsFenced (lock 5 5 job "a" 10 ∷ wipe ∷ lock 6 6 job "b" 10 ∷ [])

exclusive_until_expiry_example :
    (acquire 9 9 job "c" 10 (run contention [] (acquire 5 5 job "a" 10 init).1).1
      ≡ (busy, (run contention [] (acquire 5 5 job "a" 10 init).1).1))
    × ((release 9 first_lease (run contention [] (acquire 5 5 job "a" 10 init).1).1).0 ≡ released)
exclusive_until_expiry_example =
    exclusive_until_expiry 5 5 job "a" 10 init first_lease first_granted contention
      (omega arith, (omega arith, ((omega arith, inr (λ e. omega (arith, e))), tt))) 9 9 "c" 10
      (omega arith)
