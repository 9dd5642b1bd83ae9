-- ===== src/Webhooks/Verifier/Authentic.antt =====
-- A delivery that src/webhooks/verifier.py lets through is authentic: a secret of the set made one of
-- the digests of its header.
use mathlib.Core.Option.{some-injective}
use boilerplate_python_fasta.Prelude.{
  refl, List, ℕ, ◌≡◌, get_elem?, some, true, ◌≤◌, ◌+◌, Option, Bool, if◌then◌else◌, ◌∷◌, arith,
  false, Bool-cases, inl, none, [], ap, subst, inr, suc, ◌++◌, sym, ◌||◌, ◌∙◌,
}
use boilerplate_python_fasta.Webhooks.Verifier.{
  VerifierConfig, VerifiedDelivery, SigningSecret, digest_matches, in_window, rejected, verify,
  first_match, Answer, outside_window, claim_with, verified, verify_matched, after_claim,
  verify_parsed, new, seen, unavailable, same_codes,
}
use boilerplate_python_fasta.Webhooks.Signature.{
  ParsedSignature, parse_signature_header, parsed, compute_digest, ParseResult, malformed,
  signed_material,
}
use mathlib.Core.Option.{none}
use boilerplate_python_fasta.Prelude.Text.{same_codes, show, same_codes-true}

pub record IsAuthentic (mac : List ℕ → List ℕ → List ℕ) (sha : List ℕ → List ℕ)
    (config : VerifierConfig) (now : ℕ) (header body : List ℕ) (d : VerifiedDelivery) : Type 0 where
  pub signature : ParsedSignature
  pub read_from_header : parse_signature_header header ≡ parsed signature
  pub secret : SigningSecret
  pub known : (i : ℕ) × (get_elem? config.secrets i ≡ some secret)
  pub attributed : d.key_id ≡ secret.key_id
  pub matches :
      (j : ℕ) × (get_elem? signature.digests j
        ≡ some (mac secret.secret (show signature.timestamp ++ b'.' ∷ body)))
  pub same_timestamp : d.timestamp ≡ signature.timestamp
  pub same_body : d.body ≡ body
  pub early : signature.timestamp ≤ now + config.tolerance
  pub late : now ≤ signature.timestamp + config.tolerance

by_true : {A : Type 0} → (b : Bool) (x y : A) {z : A} → b ≡ true → (if b then x else y) ≡ z → x ≡ z
by_true true x y e h = h
by_true false x y e h = cc

by_false :
    {A : Type 0} → (b : Bool) (x y : A) {z : A} → b ≡ false → (if b then x else y) ≡ z → y ≡ z
by_false false x y e h = h
by_false true x y e h = cc

by_true_pair :
    {A S : Type 0}
    → (b : Bool) (x y : A × S) {z : A} → b ≡ true
    → (if b then x else y).0 ≡ z
    → x.0 ≡ z
by_true_pair true x y e h = h
by_true_pair false x y e h = cc

by_false_pair :
    {A S : Type 0}
    → (b : Bool) (x y : A × S) {z : A} → b ≡ false
    → (if b then x else y).0 ≡ z
    → y.0 ≡ z
by_false_pair false x y e h = h
by_false_pair true x y e h = cc

not_verified : {d : VerifiedDelivery} → ¬ (rejected outside_window ≡ verified d)
not_verified h = cc

-- A digest that matches is one of the header's.
digest_matches-get_elem? :
    (expected : List ℕ) (digests : List (List ℕ))
    → digest_matches expected digests ≡ true
    → (j : ℕ) × (get_elem? digests j ≡ some expected)
unfolding digest_matches
digest_matches-get_elem? expected [] h = cc
digest_matches-get_elem? expected (d ∷ ds) h = elim (Bool-cases (same_codes expected d)) [
  | inl e ↦ (0, ap some (sym (same_codes-true expected d e)))
  | inr e ↦
      let rest : digest_matches expected ds ≡ true =
        ap (λ b. b || digest_matches expected ds) (sym e) ∙ h in
      let (j, f) = digest_matches-get_elem? expected ds rest in (suc j, f)
]

matched_digest :
    (mac : List ℕ → List ℕ → List ℕ) (secret : List ℕ) (timestamp : ℕ) (body : List ℕ)
    (digests : List (List ℕ))
    → digest_matches (compute_digest mac secret timestamp body) digests ≡ true
    → (j : ℕ) × (get_elem? digests j ≡ some (mac secret (show timestamp ++ b'.' ∷ body)))
unfolding compute_digest signed_material
matched_digest mac secret timestamp body digests h =
    digest_matches-get_elem? (mac secret (show timestamp ++ b'.' ∷ body)) digests h

first_match-some :
    (mac : List ℕ → List ℕ → List ℕ) (timestamp : ℕ) (body : List ℕ) (digests : List (List ℕ))
    (secrets : List SigningSecret) (s : SigningSecret)
    → first_match mac timestamp body digests secrets ≡ some s
    → ((i : ℕ) × (get_elem? secrets i ≡ some s))
      × (digest_matches (compute_digest mac s.secret timestamp body) digests ≡ true)
unfolding first_match
first_match-some mac timestamp body digests [] s h = cc
first_match-some mac timestamp body digests (x ∷ secrets) s h =
    elim (Bool-cases (digest_matches (compute_digest mac x.secret timestamp body) digests)) [
      | inl m ↦
          let same : x ≡ s = some-injective x s (by_true _ _ _ m h) in
          (
            (0, ap some same),
            subst (λ y. digest_matches (compute_digest mac y.secret timestamp body) digests ≡ true)
                same m,
          )
      | inr m ↦
          let ((i, e), k) =
            first_match-some mac timestamp body digests secrets s (by_false _ _ _ m h) in
          ((suc i, e), k)
    ]

after_claim-verified :
    (fail_open : Bool) (a : Answer) (d d' : VerifiedDelivery)
    → after_claim fail_open a d ≡ verified d'
    → d' ≡ d
after_claim-verified fail_open new d d' h = cc
after_claim-verified fail_open seen d d' h = cc
after_claim-verified true unavailable d d' h = cc
after_claim-verified false unavailable d d' h = cc

claim_with-verified :
    {S : Type 0}
    → (guard : Option (List ℕ → S → Answer × S)) (config : VerifierConfig) (d d' : VerifiedDelivery)
      (s : S)
    → (claim_with guard config d s).0 ≡ verified d'
    → d' ≡ d
claim_with-verified none config d d' s h = cc
claim_with-verified (some guard) config d d' s h = after_claim-verified config.fail_open _ d d' h

matched_secret :
    {S : Type 0}
    → (sha : List ℕ → List ℕ) (guard : Option (List ℕ → S → Answer × S)) (config : VerifierConfig)
      (timestamp : ℕ) (body : List ℕ) (o : Option SigningSecret) (s : S) (d : VerifiedDelivery)
    → (verify_matched sha guard config timestamp body o s).0 ≡ verified d
    → (secret : SigningSecret) × (o ≡ some secret)
      × (d.key_id ≡ secret.key_id)
      × (d.timestamp ≡ timestamp)
      × (d.body ≡ body)
matched_secret sha guard config timestamp body none s d h = cc
matched_secret sha guard config timestamp body (some secret) s d h =
    let same = claim_with-verified guard config _ d s h in
    (secret, refl, ap (λ x. x.key_id) same, ap (λ x. x.timestamp) same, ap (λ x. x.body) same)

window_bounds :
    (tolerance now timestamp : ℕ)
    → in_window tolerance now timestamp ≡ true
    → (timestamp ≤ now + tolerance) × (now ≤ timestamp + tolerance)
unfolding in_window
window_bounds tolerance now timestamp h = ground arith

parsed-IsAuthentic :
    {S : Type 0}
    → (mac : List ℕ → List ℕ → List ℕ) (sha : List ℕ → List ℕ)
      (guard : Option (List ℕ → S → Answer × S)) (config : VerifierConfig) (now : ℕ)
      (header body : List ℕ) (s : S) (d : VerifiedDelivery) (r : ParseResult)
    → parse_signature_header header ≡ r
    → (verify_parsed mac sha guard config now body r s).0 ≡ verified d
    → IsAuthentic mac sha config now header body d
parsed-IsAuthentic mac sha guard config now header body s d (malformed e) q h = cc
parsed-IsAuthentic mac sha guard config now header body s d (parsed p) q h =
    elim (Bool-cases (in_window config.tolerance now p.timestamp)) [
      | inr w ↦ absurd (not_verified (by_false_pair _ _ _ w h))
      | inl w ↦
          let (secret, found, k, t, b) =
            matched_secret sha guard config p.timestamp body _ s d (by_true_pair _ _ _ w h) in
          let (i, m) =
            first_match-some mac p.timestamp body p.digests config.secrets secret found in
          record {
            signature = p;
            read_from_header = q;
            secret = secret;
            known = i;
            attributed = k;
            matches = matched_digest mac secret.secret p.timestamp body p.digests m;
            same_timestamp = t;
            same_body = b;
            early = (window_bounds config.tolerance now p.timestamp w).0;
            late = (window_bounds config.tolerance now p.timestamp w).1;
          }
    ]

-- Whatever the guard, a delivery that is let through carries a header that reads as a timestamp and
-- digests, and one of these is the HMAC, with a secret of the set, of that timestamp in decimal, a
-- dot and the very body; the timestamp is within the tolerance of the clock, and the delivery is
-- attributed to that secret.
pub verified-IsAuthentic :
    {S : Type 0}
    → (mac : List ℕ → List ℕ → List ℕ) (sha : List ℕ → List ℕ)
      (guard : Option (List ℕ → S → Answer × S)) (config : VerifierConfig) (now : ℕ)
      (header body : List ℕ) (s : S) (d : VerifiedDelivery)
    → (verify mac sha guard config now (some header) body s).0 ≡ verified d
    → IsAuthentic mac sha config now header body d
unfolding verify
verified-IsAuthentic mac sha guard config now [] body s d h = cc
verified-IsAuthentic mac sha guard config now (c ∷ cs) body s d h =
    parsed-IsAuthentic mac sha guard config now (c ∷ cs) body s d _ refl h
