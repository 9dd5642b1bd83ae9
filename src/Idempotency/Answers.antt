-- ===== src/Idempotency/Answers.antt =====
-- What an answer and the end of an execution do, of src/middleware/idempotency.py.
use boilerplate_python_fasta.Idempotency.Memory.{complete}
use boilerplate_python_fasta.Idempotency.Middleware.{Admission, handle_existing, handle_response}
use boilerplate_python_fasta.Idempotency.System.{System, Execution, admitted, settled}
use boilerplate_python_fasta.Idempotency.Records.{
  Writes, IsTurnedAway, release-Writes, store_record-Writes, refused_with, passed_on,
}
use boilerplate_python_fasta.Prelude.{
  refl, List, ℕ, ◌≡◌, Option, some, ◌+◌, Bool-cases, inl, none, inr,
}
use boilerplate_python_fasta.Idempotency.Base.{IdempotencyRecord, StoredResponse}
use boilerplate_python_fasta.Prelude.Text.{same_codes}
use mathlib.Core.Option.{none}

-- An answer from a record that is there starts nothing.
pub response-admitted :
    (o : Option StoredResponse) (s : System) → admitted (handle_response o, s.store) s ≡ s
response-admitted none s = refl
response-admitted (some r) s = refl

pub existing-admitted :
    (fingerprint : List ℕ) (r : IdempotencyRecord) (s : System)
    → admitted (handle_existing fingerprint r, s.store) s ≡ s
unfolding handle_existing
existing-admitted fingerprint r s = elim (Bool-cases (same_codes r.fingerprint fingerprint)) [
  | inl h ↦ rw h (response-admitted r.response s)
  | inr h ↦ rw h refl
]

pub turned_away-admitted :
    (a : Admission) (s : System) → IsTurnedAway a → admitted (a, s.store) s ≡ s
turned_away-admitted a s passed_on = refl
turned_away-admitted a s (refused_with e) = refl

-- The end of an execution writes its own key.
pub settled-Writes :
    (e : Execution) (o : Option IdempotencyRecord) (s : System)
    → (w : Option (IdempotencyRecord × ℕ)) × Writes e.full_key w s.store (settled e o s).store
unfolding complete
settled-Writes e none s = (none, release-Writes e.full_key s.store)
settled-Writes e (some r) s = (
  some (r, s.now + s.store.record_ttl),
  store_record-Writes e.full_key r (s.now + s.store.record_ttl) s.store,
)
