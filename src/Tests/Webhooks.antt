-- ===== src/Tests/Webhooks.antt =====
-- Deliveries of src/webhooks at concrete inputs, with hashes that stand for the library's.
use boilerplate_python_fasta.Prelude.Dict
use boilerplate_python_fasta.Webhooks.Verifier.{
  VerifierConfig, ReplayGuard, SigningSecret, VerifiedDelivery, verify, check_verifier, verified,
  in_window, first_match, digest_matches, delivery_fingerprint,
}
use boilerplate_python_fasta.Webhooks.Signature.{
  sign, parse_signature_header, parsed, compute_digest, signed_material, elements_of, read_elements,
  element_of, partition_at, matches_timestamp, matches_digest,
}
use boilerplate_python_fasta.Webhooks.Signature.RoundTrip.{parse-sign}
use boilerplate_python_fasta.Webhooks.Verifier.Authentic.{IsAuthentic, verified-IsAuthentic}
use boilerplate_python_fasta.Webhooks.Verifier.Calls.{perform, run, accepts, key_of}
use boilerplate_python_fasta.Webhooks.Verifier.Once.{taken}
use boilerplate_python_fasta.Webhooks.Verifier.Replay.{run_once}
use boilerplate_python_fasta.Webhooks.Verifier.Signed.{signed_call, signed-accepts, boundary_twice}
use boilerplate_python_fasta.Prelude.Text.{show, digits, strip, is_space, read_from, split}
use boilerplate_python_fasta.Prelude.Pattern.{match_plus, match_star}
use boilerplate_python_fasta.Prelude.{
  refl, total, none, some, ◌∷◌, ℕ, List, false, ◌≡◌, [], true, ◌≤◌, arith,
}
use boilerplate_python_fasta.Prelude.Text.{codes}

abbrev digest : List ℕ
digest = codes "0123456789abcdef0123456789abcdef0123456789abcdef0123456789abcdef"

abbrev mac : List ℕ → List ℕ → List ℕ
mac secret material = digest

abbrev sha : List ℕ → List ℕ
sha material = material

abbrev payload : List ℕ
payload = codes "{}"

abbrev secrets : List SigningSecret
secrets = record { key_id = "k1"; secret = 1 ∷ [] } ∷ []

abbrev config : VerifierConfig
config = record { secrets = secrets; tolerance = 3; namespace = codes "webhook"; fail_open = false }

abbrev guard_for : (ttl : ℕ) → ReplayGuard
guard_for ttl = record { claims = []; ttl = ttl }

parse-sign_example :
    parse_signature_header (sign mac (1 ∷ []) 12 payload)
    ≡ parsed (record { timestamp = 12; digests = digest ∷ [] })
unfolding compute_digest
parse-sign_example = parse-sign mac (1 ∷ []) 12 payload (omega arith) (refl, refl)

abbrev let_through : VerifiedDelivery
let_through = record { key_id = "k1"; timestamp = 12; fingerprint = codes "12.{}"; body = payload }

through :
    (verify {S = Unit} mac sha none config 10 (some (sign mac (1 ∷ []) 12 payload)) payload tt).0
    ≡ verified let_through
unfolding verify sign parse_signature_header elements_of read_elements element_of partition_at
    matches_timestamp matches_digest in_window first_match digest_matches delivery_fingerprint
    compute_digest signed_material show digits strip is_space match_plus match_star read_from split
through = refl

verified-IsAuthentic_example :
    IsAuthentic mac sha config 10 (sign mac (1 ∷ []) 12 payload) payload let_through
verified-IsAuthentic_example =
    verified-IsAuthentic {S = Unit} mac sha none config 10 (sign mac (1 ∷ []) 12 payload) payload tt
      let_through through

run_once_example :
    total (accepts 12 payload) (
      run mac sha config 7
        (signed_call mac (1 ∷ []) 12 payload 3 ∷ signed_call mac (1 ∷ []) 12 payload 5 ∷ [])
        (guard_for 7))
    ≤ 1
run_once_example =
    run_once mac sha config 7 12 payload 0
      (signed_call mac (1 ∷ []) 12 payload 3 ∷ signed_call mac (1 ∷ []) 12 payload 5 ∷ [])
      (guard_for 7) (omega arith, (omega arith, tt)) (omega arith)

signed-accepts_example :
    (accepts 12 payload
        (perform mac sha config 7 (signed_call mac (1 ∷ []) 12 payload 3) (guard_for 7)).0
      ≡ 1)
    × ((perform mac sha config 7 (signed_call mac (1 ∷ []) 12 payload 3) (guard_for 7)).1
        ≡ taken 3 (key_of sha config 12 payload) (guard_for 7))
unfolding compute_digest in_window Dict.get
signed-accepts_example =
    signed-accepts mac sha config 7 3 12 payload 0 (record { key_id = "k1"; secret = 1 ∷ [] })
      (guard_for 7) refl (omega arith) (refl, refl) refl refl

boundary_twice_example :
    (check_verifier 3 (some 6) ≡ true)
    × (total (accepts 13 payload) (
          run mac sha config 7
            (signed_call mac (1 ∷ []) 13 payload 3 ∷ signed_call mac (1 ∷ []) 13 payload 9 ∷ [])
            (guard_for 6))
        ≡ 2)
unfolding compute_digest Dict.get
boundary_twice_example =
    boundary_twice mac sha config 7 3 payload 0 (record { key_id = "k1"; secret = 1 ∷ [] })
      (guard_for 6) refl (omega arith) (refl, refl) refl (omega arith) refl
