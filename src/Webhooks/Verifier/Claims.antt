-- ===== src/Webhooks/Verifier/Claims.antt =====
-- What stays claimed with the guard of src/webhooks/replay.py in memory.
use boilerplate_python_fasta.Prelude.Dict
use boilerplate_python_fasta.Prelude.Dict.{Dict}
use boilerplate_python_fasta.Prelude.{
  refl, ℕ, List, Option, ◌∷◌, [], ◌≡◌, ◌≤◌, ◌+◌, some, ◌<◌, arith, if◌then◌else◌, Bool-cases, leb,
  false, inl, length, true, dec_lt, subst, ap, none, sym, ◌∙◌, inr,
}
use boilerplate_python_fasta.Webhooks.Verifier.{
  purge_expired, ReplayGuard, codes_discrete, claim, seen, new, is_held,
}
use boilerplate_python_fasta.Prelude.Text.{codes_discrete}
use mathlib.Core.Option.{none}

-- An accepted delivery: its window is over, or its claim outlives the window.
pub data IsSpent (key : List ℕ) (timestamp tolerance boot now : ℕ) (g : ReplayGuard) : Type 0 where
  closed : timestamp + tolerance < boot + now → IsSpent key timestamp tolerance boot now g
  claimed :
      (expires_at : ℕ)
      → Dict.get codes_discrete key g.claims ≡ some expires_at
      → timestamp + tolerance < boot + expires_at
      → IsSpent key timestamp tolerance boot now g

get-purge :
    (now e : ℕ) (k : List ℕ) (d : Dict (List ℕ) ℕ)
    → Dict.get codes_discrete k d ≡ some e
    → now < e
    → Dict.get codes_discrete k (purge_expired now d) ≡ some e
unfolding Dict.get purge_expired
get-purge now e k [] h l = h
get-purge now e k ((j, x) ∷ d) h l = ground (arith, get-purge now e k d)

-- What a claim does.
pub claim_held :
    (now : ℕ) (k : List ℕ) (g : ReplayGuard)
    → is_held now (Dict.get codes_discrete k g.claims) ≡ true
    → claim now k g ≡ (seen, g)
unfolding claim
claim_held now k g h = rw (claim, h) refl

abbrev pub kept_claims : ℕ → ReplayGuard → Dict (List ℕ) ℕ
kept_claims now g = if leb 10000 (length g.claims) then purge_expired now g.claims else g.claims

pub claim_free :
    (now : ℕ) (k : List ℕ) (g : ReplayGuard)
    → is_held now (Dict.get codes_discrete k g.claims) ≡ false
    → claim now k g
      ≡ (new, record g { claims = Dict.put codes_discrete k (now + g.ttl) (kept_claims now g) })
unfolding claim
claim_free now k g h = rw (claim, h) refl

get-kept_claims :
    (now e : ℕ) (k : List ℕ) (g : ReplayGuard)
    → Dict.get codes_discrete k g.claims ≡ some e
    → now < e
    → Dict.get codes_discrete k (kept_claims now g) ≡ some e
get-kept_claims now e k g h l = elim (Bool-cases (leb 10000 (length g.claims))) [
  | inl b ↦
      ap (λ c. Dict.get codes_discrete k (if c then purge_expired now g.claims else g.claims)) b
      ∙ get-purge now e k g.claims h l
  | inr b ↦
      ap (λ c. Dict.get codes_discrete k (if c then purge_expired now g.claims else g.claims)) b ∙ h
]

held_not_free : (now e : ℕ) (o : Option ℕ) → now < e → o ≡ some e → ¬ (is_held now o ≡ false)
held_not_free now e none l h f = cc
held_not_free now e (some x) l h f = ground arith

seen_not_new : ¬ (seen ≡ new)
seen_not_new h = cc

pub later :
    (key : List ℕ) (ts tol boot m now : ℕ) (g : ReplayGuard)
    → m ≤ now
    → IsSpent key ts tol boot m g
    → IsSpent key ts tol boot now g
later key ts tol boot m now g l (closed h) = closed (omega (arith, h, l))
later key ts tol boot m now g l (claimed e h k) = claimed e h k

-- A claim of another delivery, or a failed one, leaves a delivery spent.
pub free-IsSpent :
    (key k : List ℕ) (ts tol boot now : ℕ) (g : ReplayGuard)
    → is_held now (Dict.get codes_discrete k g.claims) ≡ false
    → IsSpent key ts tol boot now g
    → IsSpent key ts tol boot now
        (record g { claims = Dict.put codes_discrete k (now + g.ttl) (kept_claims now g) })
free-IsSpent key k ts tol boot now g f (closed h) = closed h
free-IsSpent key k ts tol boot now g f (claimed e h l) = elim (dec_lt now e) [
  | no n ↦ closed (omega (arith, n, l))
  | yes q ↦ elim (codes_discrete k key) [
    | yes same ↦
        absurd (held_not_free now e _ q (ap (λ x. Dict.get codes_discrete x g.claims) same ∙ h) f)
    | no n ↦
        claimed e
          (Dict.get-put_other codes_discrete k key (now + g.ttl) (kept_claims now g) n
            ∙ get-kept_claims now e key g h q)
          l
  ]
]

pub claim-IsSpent :
    (key k : List ℕ) (ts tol boot now : ℕ) (g : ReplayGuard)
    → IsSpent key ts tol boot now g
    → IsSpent key ts tol boot now (claim now k g).1
claim-IsSpent key k ts tol boot now g s =
    elim (Bool-cases (is_held now (Dict.get codes_discrete k g.claims))) [
      | inl h ↦ subst (λ r. IsSpent key ts tol boot now r.1) (sym (claim_held now k g h)) s
      | inr h ↦
          subst (λ r. IsSpent key ts tol boot now r.1) (sym (claim_free now k g h))
            (free-IsSpent key k ts tol boot now g h s)
    ]

pub claim-ttl : (now : ℕ) (k : List ℕ) (g : ReplayGuard) → (claim now k g).1.ttl ≡ g.ttl
claim-ttl now k g = elim (Bool-cases (is_held now (Dict.get codes_discrete k g.claims))) [
  | inl h ↦ ap (λ r. r.1.ttl) (claim_held now k g h)
  | inr h ↦ ap (λ r. r.1.ttl) (claim_free now k g h)
]

-- A claim that is new: the key was free, and is held from now on.
pub claim_new :
    (now : ℕ) (k : List ℕ) (g : ReplayGuard)
    → (claim now k g).0 ≡ new
    → (is_held now (Dict.get codes_discrete k g.claims) ≡ false)
      × (Dict.get codes_discrete k (claim now k g).1.claims ≡ some (now + g.ttl))
claim_new now k g n = elim (Bool-cases (is_held now (Dict.get codes_discrete k g.claims))) [
  | inl h ↦ absurd (seen_not_new (sym (ap (λ r. r.0) (claim_held now k g h)) ∙ n))
  | inr h ↦ (
    h,
    ap (λ r. Dict.get codes_discrete k r.1.claims) (claim_free now k g h)
        ∙ Dict.get-put_same codes_discrete k (now + g.ttl) (kept_claims now g),
  )
]

-- A spent delivery is claimed anew only when its window is over.
pub spent_over :
    (key : List ℕ) (ts tol boot now : ℕ) (g : ReplayGuard)
    → is_held now (Dict.get codes_discrete key g.claims) ≡ false
    → IsSpent key ts tol boot now g
    → ts + tol < boot + now
spent_over key ts tol boot now g f (closed h) = h
spent_over key ts tol boot now g f (claimed e h l) = elim (dec_lt now e) [
  | no n ↦ omega (arith, n, l)
  | yes q ↦ absurd (held_not_free now e _ q h f)
]
