-- ===== src/Webhooks/Verifier.antt =====
-- `WebhookVerifier` of src/webhooks/verifier.py and the guards of src/webhooks/replay.py. Seconds are
-- whole. `mac` is the HMAC and `sha` the hash of the library.
pub mod Authentic
pub mod Calls
pub mod Claims
pub mod Effect
pub mod Once
pub mod Replay
pub mod Signed
use boilerplate_python_fasta.Prelude.Dict
use boilerplate_python_fasta.Prelude.Dict.{Dict}
use boilerplate_python_fasta.Prelude.{
  List, Option, String, Bool, ℕ, if◌then◌else◌, leb, ◌∷◌, some, none, false, length, ltb, ◌&&◌, ◌+◌,
  ◌++◌, ◌||◌, ◌*◌, [],
}
use boilerplate_python_fasta.Webhooks.Signature.{
  SignatureError, signed_material, ParseResult, malformed, parse_signature_header, compute_digest,
  parsed,
}
use boilerplate_python_fasta.Prelude.Text.{same_codes, codes_discrete}

pub record SigningSecret : Type 0 where
  pub key_id : String
  pub secret : List ℕ

pub record VerifiedDelivery : Type 0 where
  pub key_id : String
  pub timestamp : ℕ
  pub fingerprint : List ℕ
  pub body : List ℕ

pub data WebhookError : Type 0 where
  header_missing outside_window mismatch replayed guard_unavailable : WebhookError
  header_malformed : SignatureError → WebhookError

pub data Verdict : Type 0 where
  verified : VerifiedDelivery → Verdict
  rejected : WebhookError → Verdict

-- What `claim` of a guard says; `unavailable` is its exception.
pub data Answer : Type 0 where
  new seen unavailable : Answer

pub record VerifierConfig : Type 0 where
  pub secrets : List SigningSecret
  pub tolerance : ℕ
  pub namespace : List ℕ
  pub fail_open : Bool

-- The `WebhookConfigurationError` of `__init__`; `true` means that there is none.
unfoldable pub check_verifier : (tolerance : ℕ) → (guard_ttl : Option ℕ) → Bool
check_verifier tolerance none = leb 1 tolerance
check_verifier tolerance (some ttl) = leb 1 tolerance && leb (tolerance * 2) ttl

unfoldable pub delivery_fingerprint :
    (sha : List ℕ → List ℕ) (timestamp : ℕ) (body : List ℕ) → List ℕ
delivery_fingerprint sha timestamp body = sha (signed_material timestamp body)

unfoldable pub digest_matches : (expected : List ℕ) → List (List ℕ) → Bool
digest_matches expected [] = false
digest_matches expected (d ∷ ds) = same_codes expected d || digest_matches expected ds

-- `_check_window`
unfoldable pub in_window : (tolerance now timestamp : ℕ) → Bool
in_window tolerance now timestamp =
    leb now (timestamp + tolerance) && leb timestamp (now + tolerance)

-- The loop of `verify` up to the first secret that matches.
unfoldable pub first_match :
    (mac : List ℕ → List ℕ → List ℕ)
    → (timestamp : ℕ) (body : List ℕ) → List (List ℕ)
    → List SigningSecret
    → Option SigningSecret
first_match mac timestamp body digests [] = none
first_match mac timestamp body digests (s ∷ secrets) =
    let rest = first_match mac timestamp body digests secrets in
    if digest_matches (compute_digest mac s.secret timestamp body) digests then some s else rest

-- What `_claim` makes of a guard's answer.
abbrev pub after_claim : (fail_open : Bool) → Answer → VerifiedDelivery → Verdict
after_claim fail_open new d = verified d
after_claim fail_open seen d = rejected replayed
after_claim fail_open unavailable d = if fail_open then verified d else rejected guard_unavailable

-- `_claim`, with the guard if there is one.
abbrev pub claim_with :
    {S : Type 0}
    → Option (List ℕ → S → Answer × S)
    → VerifierConfig
    → VerifiedDelivery
    → S
    → Verdict × S
claim_with none config d s = (verified d, s)
claim_with (some guard) config d s =
    let (answer, s') = guard (config.namespace ++ b':' ∷ d.fingerprint) s in
    (after_claim config.fail_open answer d, s')

abbrev pub verify_matched :
    {S : Type 0}
    → (sha : List ℕ → List ℕ) → Option (List ℕ → S → Answer × S)
    → VerifierConfig
    → (timestamp : ℕ) (body : List ℕ) → Option SigningSecret
    → S
    → Verdict × S
verify_matched sha guard config timestamp body none s = (rejected mismatch, s)
verify_matched sha guard config timestamp body (some secret) s =
    claim_with guard config
      (record {
        key_id = secret.key_id;
        timestamp = timestamp;
        fingerprint = delivery_fingerprint sha timestamp body;
        body = body;
      })
      s

abbrev pub verify_parsed :
    {S : Type 0}
    → (mac : List ℕ → List ℕ → List ℕ) (sha : List ℕ → List ℕ) → Option (List ℕ → S → Answer × S)
    → VerifierConfig
    → (now : ℕ) (body : List ℕ) → ParseResult
    → S
    → Verdict × S
verify_parsed mac sha guard config now body (malformed e) s = (rejected (header_malformed e), s)
verify_parsed mac sha guard config now body (parsed p) s =
    if in_window config.tolerance now p.timestamp
    then verify_matched sha guard config p.timestamp body
        (first_match mac p.timestamp body p.digests config.secrets) s
    else (rejected outside_window, s)

abbrev pub verify_header :
    {S : Type 0}
    → (mac : List ℕ → List ℕ → List ℕ) (sha : List ℕ → List ℕ) → Option (List ℕ → S → Answer × S)
    → VerifierConfig
    → (now : ℕ) (body header : List ℕ) → S
    → Verdict × S
verify_header mac sha guard config now body [] s = (rejected header_missing, s)
verify_header mac sha guard config now body (c ∷ cs) s =
    verify_parsed mac sha guard config now body (parse_signature_header (c ∷ cs)) s

-- `verify`; a header that is not there is empty.
unfoldable pub verify :
    {S : Type 0}
    → (mac : List ℕ → List ℕ → List ℕ) (sha : List ℕ → List ℕ) → Option (List ℕ → S → Answer × S)
    → VerifierConfig
    → (now : ℕ) → (signature : Option (List ℕ)) → (body : List ℕ) → S
    → Verdict × S
verify mac sha guard config now none body s = (rejected header_missing, s)
verify mac sha guard config now (some header) body s =
    verify_header mac sha guard config now body header s

-- `InMemoryReplayGuard`
pub record ReplayGuard : Type 0 where
  pub claims : Dict (List ℕ) ℕ
  pub ttl : ℕ

unfoldable pub purge_expired : (now : ℕ) → Dict (List ℕ) ℕ → Dict (List ℕ) ℕ
purge_expired now [] = []
purge_expired now (e ∷ claims) =
    let rest = purge_expired now claims in if ltb now e.1 then e ∷ rest else rest

abbrev purge_threshold : ℕ
purge_threshold = 10000

abbrev pub is_held : (now : ℕ) → Option ℕ → Bool
is_held now none = false
is_held now (some expires_at) = ltb now expires_at

unfoldable pub claim : (now : ℕ) → List ℕ → ReplayGuard → Answer × ReplayGuard
claim now fingerprint g =
    let kept =
      if leb purge_threshold (length g.claims) then purge_expired now g.claims else g.claims in
    if is_held now (Dict.get codes_discrete fingerprint g.claims)
    then (seen, g)
    else (new, record g { claims = Dict.put codes_discrete fingerprint (now + g.ttl) kept })
