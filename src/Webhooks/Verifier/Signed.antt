-- ===== src/Webhooks/Verifier/Signed.antt =====
-- What src/webhooks/verifier.py does with a delivery that `sign` signed.
use mathlib.Core.Option.{some-injective}
use boilerplate_python_fasta.Prelude.Dict
use boilerplate_python_fasta.Prelude.Dict.{Dict}
use boilerplate_python_fasta.Prelude.Text.{codes_discrete, same_codes_self}
use boilerplate_python_fasta.Prelude.{
  refl, List, ℕ, ◌∷◌, ◌≡◌, [], get_elem?, some, true, ap, ◌||◌, false, Option, suc, Bool-cases, inl,
  if◌then◌else◌, ◌<◌, ◌^◌, inr, ◌∙◌, zero, String, ◌+◌, arith, ◌≤◌, total,
}
use boilerplate_python_fasta.Webhooks.Verifier.Calls.{Call, perform, run, accepts, key_of, delivery}
use boilerplate_python_fasta.Webhooks.Verifier.Claims.{claim_free, kept_claims}
use boilerplate_python_fasta.Webhooks.Verifier.Once.{taken}
use boilerplate_python_fasta.Webhooks.Verifier.{
  first_match, digest_matches, SigningSecret, verify, Answer, VerifierConfig, verify_header,
  ReplayGuard, verify_parsed, in_window, is_held, claim, verified, check_verifier,
}
use boilerplate_python_fasta.Webhooks.Signature.{sign, compute_digest, parse_signature_header}
use boilerplate_python_fasta.Webhooks.Signature.RoundTrip.{IsHexDigest, parse-sign}

digest_matches_self : (d : List ℕ) → digest_matches d (d ∷ []) ≡ true
unfolding digest_matches
digest_matches_self d = ap (λ b. b || false) (same_codes_self d)

-- The header of `sign` is not empty.
signed-verify_header :
    {S : Type 0}
    → (mac : List ℕ → List ℕ → List ℕ) (sha : List ℕ → List ℕ)
      (guard : Option (List ℕ → S → Answer × S)) (config : VerifierConfig) (now t : ℕ)
      (body secret : List ℕ) (s : S)
    → verify_header mac sha guard config now body (sign mac secret t body) s
      ≡ verify_parsed mac sha guard config now body
          (parse_signature_header (sign mac secret t body))
          s
unfolding sign
signed-verify_header mac sha guard config now t body secret s = refl

-- Some secret matches the digest of a known secret.
first_match_known :
    (mac : List ℕ → List ℕ → List ℕ) (t : ℕ) (body : List ℕ) (secret : SigningSecret) (i : ℕ)
    (secrets : List SigningSecret)
    → get_elem? secrets i ≡ some secret
    → (s : SigningSecret) × (first_match mac t body
          (compute_digest mac secret.secret t body ∷ [])
          secrets
        ≡ some s)
unfolding first_match
first_match_known mac t body secret i [] h = cc
first_match_known mac t body secret zero (x ∷ secrets) h = (
  x,
  rw (some-injective _ _ h, digest_matches_self (compute_digest mac secret.secret t body)) refl,
)
first_match_known mac t body secret (suc i) (x ∷ secrets) h =
    let ds = compute_digest mac secret.secret t body ∷ [] in
    let (s, e) = first_match_known mac t body secret i secrets h in
    elim (Bool-cases (digest_matches (compute_digest mac x.secret t body) ds)) [
      | inl m ↦ (x, ap (λ b. if b then some x else first_match mac t body ds secrets) m)
      | inr m ↦ (s, ap (λ b. if b then some x else first_match mac t body ds secrets) m ∙ e)
    ]

-- A signed delivery in its window, from `parse_signature_header` on.
verify_signed :
    (mac : List ℕ → List ℕ → List ℕ) (sha : List ℕ → List ℕ) (config : VerifierConfig)
    (mono now t : ℕ) (body : List ℕ) (i : ℕ) (secret : SigningSecret) (g : ReplayGuard)
    → get_elem? config.secrets i ≡ some secret
    → t < 10 ^ 19
    → IsHexDigest (compute_digest mac secret.secret t body)
    → in_window config.tolerance now t ≡ true
    → is_held mono (Dict.get codes_discrete (key_of sha config t body) g.claims) ≡ false
    → (kid : String) × (verify mac sha
          (some (claim mono))
          config
          now
          (some (sign mac secret.secret t body))
          body
          g
        ≡ (verified (delivery sha kid t body), taken mono (key_of sha config t body) g))
unfolding verify
verify_signed mac sha config mono now t body i secret g known short hex w free =
    let (s, e) = first_match_known mac t body secret i config.secrets known in
    (
      s.key_id,
      signed-verify_header mac sha (some (claim mono)) config now t body secret.secret g
          ∙ rw
              (
                parse-sign mac secret.secret t body short hex,
                w,
                e,
                claim_free mono (key_of sha config t body) g free,
              )
              refl,
    )

-- A call with the header of `sign`.
abbrev pub signed_call :
    (mac : List ℕ → List ℕ → List ℕ) (secret : List ℕ) (t : ℕ) (body : List ℕ) → (mono : ℕ) → Call
signed_call mac secret t body mono = record {
  mono = mono;
  signature = some (sign mac secret t body);
  body = body;
}

accepts-delivery :
    (sha : List ℕ → List ℕ) (kid : String) (t : ℕ) (body : List ℕ)
    → accepts t body (verified (delivery sha kid t body)) ≡ 1
accepts-delivery sha kid t body = rw (same_codes_self body) (ground arith)

-- A delivery signed with a secret of the set, in its window and not claimed, is accepted, and its
-- key is claimed for the time the guard keeps claims. The timestamp has at most nineteen digits.
pub signed-accepts :
    (mac : List ℕ → List ℕ → List ℕ) (sha : List ℕ → List ℕ) (config : VerifierConfig)
    (boot mono t : ℕ) (body : List ℕ) (i : ℕ) (secret : SigningSecret) (g : ReplayGuard)
    → get_elem? config.secrets i ≡ some secret
    → t < 10 ^ 19
    → IsHexDigest (compute_digest mac secret.secret t body)
    → in_window config.tolerance (boot + mono) t ≡ true
    → is_held mono (Dict.get codes_discrete (key_of sha config t body) g.claims) ≡ false
    → (accepts t body (perform mac sha config boot (signed_call mac secret.secret t body mono) g).0
        ≡ 1)
      × ((perform mac sha config boot (signed_call mac secret.secret t body mono) g).1
          ≡ taken mono (key_of sha config t body) g)
unfolding perform
signed-accepts mac sha config boot mono t body i secret g known short hex w free =
    let (kid, e) =
      verify_signed mac sha config mono (boot + mono) t body i secret g known short hex w free in
    (ap (λ r. accepts t body r.0) e ∙ accepts-delivery sha kid t body, ap (λ r. r.1) e)

in_window_low : (tol now : ℕ) → in_window tol now (now + tol) ≡ true
unfolding in_window
in_window_low tol now = ground arith

in_window_high : (tol now : ℕ) → in_window tol (now + (tol + tol)) (now + tol) ≡ true
unfolding in_window
in_window_high tol now = ground arith

taken_expired :
    (k : List ℕ) (mono : ℕ) (g : ReplayGuard)
    → is_held (mono + g.ttl) (Dict.get codes_discrete k (taken mono k g).claims) ≡ false
taken_expired k mono g =
    ap (is_held (mono + g.ttl))
      (Dict.get-put_same codes_discrete k (mono + g.ttl) (kept_claims mono g))
    ∙ ground arith

check_boundary : (tol : ℕ) → 1 ≤ tol → check_verifier tol (some (tol + tol)) ≡ true
unfolding check_verifier
check_boundary tol l = ground arith

-- A guard whose claims live exactly twice the tolerance, which `__init__` admits, lets a delivery
-- through twice: when its timestamp is the tolerance ahead, and when it is the tolerance behind.
pub boundary_twice :
    (mac : List ℕ → List ℕ → List ℕ) (sha : List ℕ → List ℕ) (config : VerifierConfig)
    (boot mono : ℕ) (body : List ℕ) (i : ℕ) (secret : SigningSecret) (g : ReplayGuard)
    → get_elem? config.secrets i ≡ some secret
    → boot + mono + config.tolerance < 10 ^ 19
    → IsHexDigest (compute_digest mac secret.secret (boot + mono + config.tolerance) body)
    → is_held mono
        (Dict.get codes_discrete (key_of sha config (boot + mono + config.tolerance) body) g.claims)
      ≡ false
    → 1 ≤ config.tolerance
    → g.ttl ≡ config.tolerance + config.tolerance
    → let t = boot + mono + config.tolerance in
      let call = signed_call mac secret.secret t body in
      (check_verifier config.tolerance (some g.ttl) ≡ true)
      × (total (accepts t body) (run mac sha config boot (call mono ∷ call (mono + g.ttl) ∷ []) g)
          ≡ 2)
unfolding run
boundary_twice mac sha config boot mono body i secret g known short hex free pos width =
    let tol = config.tolerance in
    let t = boot + mono + tol in
    let k = key_of sha config t body in
    let call = signed_call mac secret.secret t body in
    let first =
      signed-accepts mac sha config boot mono t body i secret g known short hex
        (in_window_low tol (boot + mono)) free in
    let w = ap (λ n. in_window tol n t) (omega (arith, width)) ∙ in_window_high tol (boot + mono) in
    let second =
      signed-accepts mac sha config boot (mono + g.ttl) t body i secret (taken mono k g) known short
        hex w (taken_expired k mono g) in
    (
      ap (λ n. check_verifier tol (some n)) width ∙ check_boundary tol pos,
      omega (
        arith,
        first.0,
        ap (λ g'. accepts t body (perform mac sha config boot (call (mono + g.ttl)) g').0) first.1
            ∙ second.0,
      ),
    )
