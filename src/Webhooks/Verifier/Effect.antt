-- ===== src/Webhooks/Verifier/Effect.antt =====
-- What a call of `verify` of src/webhooks/verifier.py leaves.
use boilerplate_python_fasta.Prelude.{
  ℕ, List, Option, ◌∷◌, [], ◌≡◌, some, if◌then◌else◌, Bool-cases, inl, true, subst, none, sym, inr,
  String,
}
use boilerplate_python_fasta.Webhooks.Verifier.{
  VerifierConfig, ReplayGuard, Verdict, rejected, verify, claim, ParseResult, WebhookError,
  header_missing, SigningSecret, verify_parsed, in_window, verify_matched, after_claim, mismatch,
  header_malformed, first_match, outside_window,
}
use mathlib.Core.Option.{none}
use boilerplate_python_fasta.Webhooks.Signature.{ParseResult, malformed, parsed}
use boilerplate_python_fasta.Webhooks.Verifier.Calls.{key_of, delivery}

-- What a call leaves: the guard as it was, or with the claim of a delivery in its window.
pub data Effect (sha : List ℕ → List ℕ) (config : VerifierConfig) (mono now : ℕ) (body : List ℕ)
    (g : ReplayGuard) : Verdict × ReplayGuard → Type 0 where
  untouched : (e : WebhookError) → Effect sha config mono now body g (rejected e, g)
  claiming :
      (key_id : String) (ts : ℕ)
      → in_window config.tolerance now ts ≡ true
      → Effect sha config mono now body g (
        after_claim config.fail_open
            (claim mono (key_of sha config ts body) g).0
            (delivery sha key_id ts body),
        (claim mono (key_of sha config ts body) g).1,
      )

matched-Effect :
    (sha : List ℕ → List ℕ) (config : VerifierConfig) (mono now ts : ℕ) (body : List ℕ)
    (g : ReplayGuard) (o : Option SigningSecret)
    → in_window config.tolerance now ts ≡ true
    → Effect sha config mono now body g (verify_matched sha (some (claim mono)) config ts body o g)
matched-Effect sha config mono now ts body g none w = untouched mismatch
matched-Effect sha config mono now ts body g (some secret) w = claiming secret.key_id ts w

parsed-Effect :
    (mac : List ℕ → List ℕ → List ℕ) (sha : List ℕ → List ℕ) (config : VerifierConfig)
    (mono now : ℕ) (body : List ℕ) (g : ReplayGuard) (r : ParseResult)
    → Effect sha config mono now body g
        (verify_parsed mac sha (some (claim mono)) config now body r g)
parsed-Effect mac sha config mono now body g (malformed e) = untouched (header_malformed e)
parsed-Effect mac sha config mono now body g (parsed p) =
    elim (Bool-cases (in_window config.tolerance now p.timestamp)) [
      | inl w ↦
          subst
            (λ b. Effect sha config mono now body g (
              if b
              then verify_matched sha (some (claim mono)) config p.timestamp body
                  (first_match mac p.timestamp body p.digests config.secrets) g
              else (rejected outside_window, g)))
            (sym w) (matched-Effect sha config mono now p.timestamp body g _ w)
      | inr w ↦
          subst
            (λ b. Effect sha config mono now body g (
              if b
              then verify_matched sha (some (claim mono)) config p.timestamp body
                  (first_match mac p.timestamp body p.digests config.secrets) g
              else (rejected outside_window, g)))
            (sym w) (untouched outside_window)
    ]

pub verify-Effect :
    (mac : List ℕ → List ℕ → List ℕ) (sha : List ℕ → List ℕ) (config : VerifierConfig)
    (mono now : ℕ) (signature : Option (List ℕ)) (body : List ℕ) (g : ReplayGuard)
    → Effect sha config mono now body g
        (verify mac sha (some (claim mono)) config now signature body g)
unfolding verify
verify-Effect mac sha config mono now none body g = untouched header_missing
verify-Effect mac sha config mono now (some []) body g = untouched header_missing
verify-Effect mac sha config mono now (some (c ∷ cs)) body g =
    parsed-Effect mac sha config mono now body g _
