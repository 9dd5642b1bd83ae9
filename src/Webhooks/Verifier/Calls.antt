-- ===== src/Webhooks/Verifier/Calls.antt =====
-- Calls of `verify` of src/webhooks/verifier.py with the guard of replay.py in memory.
use boilerplate_python_fasta.Prelude.{
  ℕ, List, Option, ◌∷◌, [], ◌≤◌, ◌++◌, ◌+◌, some, if◌then◌else◌, ◌==◌, ◌&&◌, String,
}
use boilerplate_python_fasta.Webhooks.Verifier.{
  VerifierConfig, ReplayGuard, Verdict, rejected, verify, verified, delivery_fingerprint, claim,
  VerifiedDelivery,
}
use boilerplate_python_fasta.Prelude.Text.{same_codes}

-- A call of `verify`, at a reading of the monotonic clock.
pub record Call : Type 0 where
  pub mono : ℕ
  pub signature : Option (List ℕ)
  pub body : List ℕ

-- The wall clock reads `boot` more than the monotonic one.
unfoldable pub perform :
    (mac : List ℕ → List ℕ → List ℕ) (sha : List ℕ → List ℕ)
    → VerifierConfig
    → (boot : ℕ) → Call
    → ReplayGuard
    → Verdict × ReplayGuard
perform mac sha config boot c g =
    verify mac sha (some (claim c.mono)) config (boot + c.mono) c.signature c.body g

unfoldable pub run :
    (mac : List ℕ → List ℕ → List ℕ) (sha : List ℕ → List ℕ)
    → VerifierConfig
    → (boot : ℕ) → List Call
    → ReplayGuard
    → List Verdict
run mac sha config boot [] g = []
run mac sha config boot (c ∷ calls) g =
    let (v, g') = perform mac sha config boot c g in v ∷ run mac sha config boot calls g'

-- The monotonic clock does not go back.
abbrev pub IsAscending : ℕ → List Call → Type 0
IsAscending now [] = Unit
IsAscending now (c ∷ calls) = (now ≤ c.mono) × IsAscending c.mono calls

-- Whether a call accepted the delivery of a timestamp and a body.
abbrev pub accepts : (timestamp : ℕ) (body : List ℕ) → Verdict → ℕ
accepts timestamp body (rejected e) = 0
accepts timestamp body (verified d) =
    if d.timestamp == timestamp && same_codes d.body body then 1 else 0

abbrev pub key_of :
    (sha : List ℕ → List ℕ) → VerifierConfig → (timestamp : ℕ) (body : List ℕ) → List ℕ
key_of sha config timestamp body =
    config.namespace ++ b':' ∷ delivery_fingerprint sha timestamp body

abbrev pub delivery :
    (sha : List ℕ → List ℕ) → (key_id : String) (timestamp : ℕ) (body : List ℕ) → VerifiedDelivery
delivery sha key_id timestamp body = record {
  key_id = key_id;
  timestamp = timestamp;
  fingerprint = delivery_fingerprint sha timestamp body;
  body = body;
}
