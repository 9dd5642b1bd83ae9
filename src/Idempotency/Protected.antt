-- ===== src/Idempotency/Protected.antt =====
-- Which requests src/middleware/idempotency.py does not let past the store.
use boilerplate_python_fasta.Idempotency.Middleware.{
  Request, IdempotencyConfig, handle, handle_header, handle_key, handle_buffered, applies_to,
  starts_with, reserve_with, passed,
}
use boilerplate_python_fasta.Idempotency.System.{System, handled, reserve_memory}
use boilerplate_python_fasta.Idempotency.Buffer.{Message, http_request, buffer_request, Buffered}
use boilerplate_python_fasta.Idempotency.Base.{validate_idempotency_key, is_visible}
use boilerplate_python_fasta.Idempotency.Capture.Replayed.{joined}
use boilerplate_python_fasta.Idempotency.Records.{full_key_of, fingerprint_of}
use mathlib.Core.List.{append_assoc}
use mathlib.Core.Option.{some-injective}
use boilerplate_python_fasta.Prelude.{
  refl, ℕ, List, ◌++◌, Bool, ◌≡◌, length, false, ◌≤◌, [], ltb, ◌∷◌, get_elem?, true, none, arith,
  some, subst, length-append, sym, ap, ◌∙◌, if◌then◌else◌, suc, not, zero, ◌||◌,
}
use boilerplate_python_fasta.Prelude.Pattern.{match_plus, all, match_star-all}
use boilerplate_python_fasta.Prelude.Text.{same_codes, same_codes_self, and_right}
use boilerplate_python_fasta.Resilience.Policy.{any}

-- A body that comes in chunks, of which the last one ends it, and what comes after it.
abbrev pub uploaded : (chunks : List (List ℕ)) (final : List ℕ) → List Message → List Message
uploaded [] final rest = http_request final false ∷ rest
uploaded (c ∷ chunks) final rest = http_request c true ∷ uploaded chunks final rest

-- An HTTP request with a method and a path that the middleware is configured for, a key of 1 to 255
-- printable characters without a space, and a body that is no longer than the limit.
pub record IsProtected (config : IdempotencyConfig) (q : Request) (key body : List ℕ) : Type 0 where
  pub over_http : q.is_http ≡ true
  pub enabled : config.enabled ≡ true
  pub method : (i : ℕ) × (get_elem? config.methods i ≡ some q.method)
  pub path :
      (i : ℕ) × (prefix : List ℕ) × (rest : List ℕ) × (get_elem? config.path_prefixes i
        ≡ some prefix)
      × (q.path ≡ prefix ++ rest)
  pub carried : q.idempotency_key ≡ some key
  pub present : 1 ≤ length key
  pub short : length key ≤ 255
  pub visible : all is_visible key ≡ true
  pub upload :
      (chunks : List (List ℕ)) × (final : List ℕ) × (rest : List Message) × (q.messages
        ≡ uploaded chunks final rest)
      × (body ≡ joined chunks final)
  pub fits : length body ≤ config.max_request_body_bytes

any_found :
    (p : List ℕ → Bool) (xs : List (List ℕ)) (i : ℕ) (x : List ℕ)
    → get_elem? xs i ≡ some x
    → p x ≡ true
    → any p xs ≡ true
any_found p [] i x h k = cc
any_found p (y ∷ xs) zero x h k = rw (some-injective y x h, k) refl
any_found p (y ∷ xs) (suc i) x h k = ground (arith, any_found p xs i x h k)

starts_with-append : (prefix rest : List ℕ) → starts_with prefix (prefix ++ rest) ≡ true
unfolding starts_with
starts_with-append [] rest = refl
starts_with-append (c ∷ prefix) rest = ground (arith, starts_with-append prefix rest)

applies_to-protected :
    (config : IdempotencyConfig) (q : Request) (key body : List ℕ)
    → IsProtected config q key body
    → applies_to config q ≡ true
unfolding applies_to
applies_to-protected config q key body h =
    let (i, m) = h.method in
    let (j, prefix, rest, e, f) = h.path in
    rw
      (
        any_found (same_codes q.method) config.methods i q.method m (same_codes_self q.method),
        any_found (λ prefix. starts_with prefix q.path) config.path_prefixes j prefix e
            (ap (starts_with prefix) f ∙ starts_with-append prefix rest),
      )
      refl

validate-visible :
    (key : List ℕ)
    → 1 ≤ length key
    → length key ≤ 255
    → all is_visible key ≡ true
    → validate_idempotency_key key ≡ none
unfolding validate_idempotency_key match_plus
validate-visible [] h l v = absurd (omega (arith, h))
validate-visible (c ∷ cs) h l v =
    ground (arith, l, v, match_star-all is_visible cs (and_right (is_visible c) _ v))

buffer_request-uploaded :
    (limit : ℕ) (chunks : List (List ℕ)) (body final : List ℕ) (rest : List Message)
    → length (body ++ joined chunks final) ≤ limit
    → ((buffer_request limit body (uploaded chunks final rest)).truncated ≡ false)
      × ((buffer_request limit body (uploaded chunks final rest)).body
          ≡ body ++ joined chunks final)
unfolding buffer_request
buffer_request-uploaded limit [] body final rest l =
    let fits : ltb limit (length (body ++ final)) ≡ false = ground (arith, l) in
    rw fits (refl, refl)
buffer_request-uploaded limit (c ∷ chunks) body final rest l =
    let same = append_assoc body c (joined chunks final) in
    let fits : ltb limit (length (body ++ c)) ≡ false = ground (
      arith,
      l,
      length-append body (c ++ joined chunks final),
      length-append c (joined chunks final),
      length-append body c,
    ) in
    let (t, b) =
      buffer_request-uploaded limit chunks (body ++ c) final rest
        (subst (λ x. length x ≤ limit) (sym same) l) in
    rw fits (t, b ∙ same)

past_tests :
    {A : Type 0}
    → (over_http enabled applies : Bool) (x y : A) → over_http ≡ true
    → enabled ≡ true
    → applies ≡ true
    → (if not over_http || not enabled then y else if applies then x else y) ≡ x
past_tests true true true x y h k l = refl
past_tests true true false x y h k l = cc
past_tests true false applies x y h k l = cc
past_tests false enabled applies x y h k l = cc

whole-handle_buffered :
    (sha : List ℕ → List ℕ) (config : IdempotencyConfig) (q : Request) (key body : List ℕ)
    (s : System) (b : Buffered)
    → b.truncated ≡ false
    → b.body ≡ body
    → handle_buffered sha (reserve_memory s.now) config q key b s.store
      ≡ reserve_with
          (reserve_memory s.now)
          config
          (full_key_of sha q key)
          (fingerprint_of sha q body)
          s.store
whole-handle_buffered sha config q key body s b t e =
    ap
      (λ c.
        if c
        then (passed, s.store)
        else reserve_with (reserve_memory s.now) config (full_key_of sha q key)
            (fingerprint_of sha q b.body) s.store)
      t
    ∙ ap
        (λ x.
          reserve_with (reserve_memory s.now) config (full_key_of sha q key)
            (fingerprint_of sha q x) s.store)
        e

-- Such a request reaches the store, with the fingerprint of its whole body.
pub protected_handled :
    (sha : List ℕ → List ℕ) (config : IdempotencyConfig) (q : Request) (key body : List ℕ)
    (s : System)
    → IsProtected config q key body
    → handled sha config q s
      ≡ reserve_with
          (reserve_memory s.now)
          config
          (full_key_of sha q key)
          (fingerprint_of sha q body)
          s.store
unfolding handle
protected_handled sha config q key body s h =
    let limit = config.max_request_body_bytes in
    let reserving = reserve_memory s.now in
    let (chunks, final, rest, m, e) = h.upload in
    let (t, b) =
      buffer_request-uploaded limit chunks [] final rest (subst (λ x. length x ≤ limit) e h.fits) in
    past_tests q.is_http config.enabled (applies_to config q) _ _ h.over_http h.enabled
      (applies_to-protected config q key body h)
    ∙ ap (λ o. handle_header sha reserving config q o s.store) h.carried
    ∙ ap (λ o. handle_key sha reserving config q key o s.store)
        (validate-visible key h.present h.short h.visible)
    ∙ whole-handle_buffered sha config q key body s (buffer_request limit [] q.messages)
        (ap (λ ms. (buffer_request limit [] ms).truncated) m ∙ t)
        (ap (λ ms. (buffer_request limit [] ms).body) m ∙ b ∙ sym e)
