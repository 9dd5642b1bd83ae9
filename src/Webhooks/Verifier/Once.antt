-- ===== src/Webhooks/Verifier/Once.antt =====
-- What one call does to the deliveries of a timestamp and a body.
use boilerplate_python_fasta.Prelude.Dict
use boilerplate_python_fasta.Prelude.Dict.{Dict}
use boilerplate_python_fasta.Prelude.{
  refl, ℕ, List, ◌≡◌, ◌≤◌, ◌+◌, ◌<◌, arith, if◌then◌else◌, ◌==◌, ◌&&◌, Bool-cases, leb, false, inl,
  true, subst, ap, sym, inr, String, ◌⊎◌,
}
use boilerplate_python_fasta.Webhooks.Verifier.{
  VerifierConfig, ReplayGuard, codes_discrete, Verdict, rejected, verified, claim, is_held,
  WebhookError, in_window, after_claim, replayed,
}
use boilerplate_python_fasta.Prelude.Text.{
  codes_discrete, same_codes, and_left, and_right, same_codes-true,
}
use boilerplate_python_fasta.Webhooks.Verifier.Claims.{
  IsSpent, kept_claims, free-IsSpent, claim_held, claimed, spent_over, claim_free,
}
use boilerplate_python_fasta.Webhooks.Verifier.Calls.{
  Call, perform, key_of, delivery, perform, accepts, Call,
}
use boilerplate_python_fasta.Webhooks.Verifier.Effect.{Effect, untouched, claiming, verify-Effect}

-- What one call does to the deliveries of a timestamp and a body.
pub record Once (sha : List ℕ → List ℕ) (config : VerifierConfig) (boot mono ts : ℕ) (body : List ℕ)
    (g : ReplayGuard) (r : Verdict × ReplayGuard) : Type 0 where
  pub at_most : accepts ts body r.0 ≤ 1
  pub same_ttl : r.1.ttl ≡ g.ttl
  pub spends :
      config.tolerance + config.tolerance < g.ttl
      → accepts ts body r.0 ≡ 1
      → IsSpent (key_of sha config ts body) ts config.tolerance boot mono r.1
  pub refuses :
      IsSpent (key_of sha config ts body) ts config.tolerance boot mono g → accepts ts body r.0 ≡ 0
  pub keeps :
      IsSpent (key_of sha config ts body) ts config.tolerance boot mono g
      → IsSpent (key_of sha config ts body) ts config.tolerance boot mono r.1

accepts_cases :
    (sha : List ℕ → List ℕ) (kid : String) (t ts : ℕ) (b body : List ℕ)
    → (accepts ts body (verified (delivery sha kid t b)) ≡ 0) ⊎ ((t ≡ ts) × (b ≡ body))
accepts_cases sha kid t ts b body = elim (Bool-cases (t == ts && same_codes b body)) [
  | inl h ↦ inr (
    ground (arith, and_left (t == ts) (same_codes b body) h),
    same_codes-true b body (and_right (t == ts) (same_codes b body) h),
  )
  | inr h ↦ inl (ap (λ c. if c then 1 else 0) h)
]

accepts_bound : (ts : ℕ) (body : List ℕ) (v : Verdict) → accepts ts body v ≤ 1
accepts_bound ts body (rejected e) = ground arith
accepts_bound ts body (verified d) =
    elim (Bool-cases (d.timestamp == ts && same_codes d.body body)) [
      | inl h ↦ subst (λ c. (if c then 1 else 0) ≤ 1) (sym h) (omega arith)
      | inr h ↦ subst (λ c. (if c then 1 else 0) ≤ 1) (sym h) (omega arith)
    ]

rejected-Once :
    (sha : List ℕ → List ℕ) (config : VerifierConfig) (boot mono ts : ℕ) (body : List ℕ)
    (g : ReplayGuard) (e : WebhookError)
    → Once sha config boot mono ts body g (rejected e, g)
rejected-Once sha config boot mono ts body g e = record {
  at_most = omega arith;
  same_ttl = refl;
  spends = λ l h. absurd (omega (arith, h));
  refuses = λ s. refl;
  keeps = λ s. s;
}

window_low : (tol now ts : ℕ) → in_window tol now ts ≡ true → now ≤ ts + tol
unfolding in_window
window_low tol now ts h = ground (arith, and_left (leb now (ts + tol)) (leb ts (now + tol)) h)

window_high : (tol now ts : ℕ) → in_window tol now ts ≡ true → ts ≤ now + tol
unfolding in_window
window_high tol now ts h = ground (arith, and_right (leb now (ts + tol)) (leb ts (now + tol)) h)

-- The guard after a new claim of the delivery of a timestamp and a body.
abbrev pub taken : (mono : ℕ) → List ℕ → ReplayGuard → ReplayGuard
taken mono k g = record g { claims = Dict.put codes_discrete k (mono + g.ttl) (kept_claims mono g) }

taken-spends :
    (k : List ℕ) (tol boot mono ts : ℕ) (g : ReplayGuard)
    → in_window tol (boot + mono) ts ≡ true
    → tol + tol < g.ttl
    → IsSpent k ts tol boot mono (taken mono k g)
taken-spends k tol boot mono ts g w l =
    claimed (mono + g.ttl) (Dict.get-put_same codes_discrete k (mono + g.ttl) (kept_claims mono g))
      (omega (arith, window_high tol (boot + mono) ts w, l))

taken_not_spent :
    (k : List ℕ) (tol boot mono ts : ℕ) (g : ReplayGuard)
    → in_window tol (boot + mono) ts ≡ true
    → is_held mono (Dict.get codes_discrete k g.claims) ≡ false
    → ¬ IsSpent k ts tol boot mono g
taken_not_spent k tol boot mono ts g w f s =
    omega (arith, window_low tol (boot + mono) ts w, spent_over k ts tol boot mono g f s)

new-Once :
    (sha : List ℕ → List ℕ) (config : VerifierConfig) (boot mono ts t : ℕ) (body b : List ℕ)
    (kid : String) (g : ReplayGuard)
    → in_window config.tolerance (boot + mono) t ≡ true
    → is_held mono (Dict.get codes_discrete (key_of sha config t b) g.claims) ≡ false
    → Once sha config boot mono ts body g
        (verified (delivery sha kid t b), taken mono (key_of sha config t b) g)
new-Once sha config boot mono ts t body b kid g w f = record {
  at_most = accepts_bound ts body (verified (delivery sha kid t b));
  same_ttl = refl;
  spends = λ l one. elim (accepts_cases sha kid t ts b body) [
    | inl z ↦ absurd (omega (arith, one, z))
    | inr (p, q) ↦
        subst {A = ℕ × List ℕ}
          (λ x.
            IsSpent (key_of sha config x.0 x.1) x.0 config.tolerance boot mono
              (taken mono (key_of sha config t b) g))
          (λ i. (p i, q i))
          (taken-spends (key_of sha config t b) config.tolerance boot mono t g w l)
  ];
  refuses = λ s. elim (accepts_cases sha kid t ts b body) [
    | inl z ↦ z
    | inr (p, q) ↦ absurd (
        taken_not_spent (key_of sha config t b) config.tolerance boot mono t g w f (
          subst {A = ℕ × List ℕ}
            (λ (x : ℕ × List ℕ).
              IsSpent (key_of sha config x.0 x.1) x.0 config.tolerance boot mono g)
            (λ i. (sym p i, sym q i)) s))
  ];
  keeps =
      free-IsSpent (key_of sha config ts body) (key_of sha config t b) ts config.tolerance boot mono
        g f;
}

claiming-Once :
    (sha : List ℕ → List ℕ) (config : VerifierConfig) (boot mono ts t : ℕ) (body b : List ℕ)
    (kid : String) (g : ReplayGuard)
    → in_window config.tolerance (boot + mono) t ≡ true
    → Once sha config boot mono ts body g (
      after_claim config.fail_open (claim mono (key_of sha config t b) g).0 (delivery sha kid t b),
      (claim mono (key_of sha config t b) g).1,
    )
claiming-Once sha config boot mono ts t body b kid g w =
    elim (Bool-cases (is_held mono (Dict.get codes_discrete (key_of sha config t b) g.claims))) [
      | inl h ↦
          subst
            (λ r.
              Once sha config boot mono ts body g
                (after_claim config.fail_open r.0 (delivery sha kid t b), r.1))
            (sym (claim_held mono (key_of sha config t b) g h))
            (rejected-Once sha config boot mono ts body g replayed)
      | inr h ↦
          subst
            (λ r.
              Once sha config boot mono ts body g
                (after_claim config.fail_open r.0 (delivery sha kid t b), r.1))
            (sym (claim_free mono (key_of sha config t b) g h))
            (new-Once sha config boot mono ts t body b kid g w h)
    ]

Effect-Once :
    (sha : List ℕ → List ℕ) (config : VerifierConfig) (boot mono ts : ℕ) (body b : List ℕ)
    (g : ReplayGuard) (r : Verdict × ReplayGuard)
    → Effect sha config mono (boot + mono) b g r
    → Once sha config boot mono ts body g r
Effect-Once sha config boot mono ts body b g r (untouched e) =
    rejected-Once sha config boot mono ts body g e
Effect-Once sha config boot mono ts body b g r (claiming kid t w) =
    claiming-Once sha config boot mono ts t body b kid g w

pub perform-Once :
    (mac : List ℕ → List ℕ → List ℕ) (sha : List ℕ → List ℕ) (config : VerifierConfig) (boot ts : ℕ)
    (body : List ℕ) (c : Call) (g : ReplayGuard)
    → Once sha config boot c.mono ts body g (perform mac sha config boot c g)
unfolding perform
perform-Once mac sha config boot ts body c g =
    Effect-Once sha config boot c.mono ts body c.body g _
      (verify-Effect mac sha config c.mono (boot + c.mono) c.signature c.body g)
