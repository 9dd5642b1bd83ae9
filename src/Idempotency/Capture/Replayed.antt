-- ===== src/Idempotency/Capture/Replayed.antt =====
-- A response that src/middleware/idempotency.py stored is replayed as it was sent.
use mathlib.Core.List.{append_assoc}
use boilerplate_python_fasta.Prelude.{
  refl, ℕ, List, ◌∷◌, ◌≡◌, ◌++◌, ◌<◌, [], false, length, true, ◌≤◌, ap, arith, ltb, length-append,
  some, ◌∙◌, subst, sym, leb, option_map, ◌≢◌, map, Bool, not, if◌then◌else◌, Bool-cases, inl, inr,
}
use boilerplate_python_fasta.Idempotency.Capture.{
  settle, capture_all, Sent, Capture, capture, send_stored, ◌∷◌, response_body, false, is_retryable,
  length, true, without_cookies, capture_body, response_start, ltb, no_capture, some, key_header,
  codes, StoredResponse, leb, not, forward, map, Bool, lower, same_codes,
}
use boilerplate_python_fasta.Prelude.Text.{codes, same_codes_self, same_codes, same_codes-true}
use boilerplate_python_fasta.Idempotency.Base.{StoredResponse}
use boilerplate_python_fasta.Idempotency.Middleware.{handle_existing, replayed}
use boilerplate_python_fasta.Webhooks.Signature.{lower}

-- The body messages of chunks, of which the last one ends the response.
abbrev pub chunked : (chunks : List (List ℕ)) (final : List ℕ) → List Sent
chunked [] final = response_body final false ∷ []
chunked (c ∷ chunks) final = response_body c true ∷ chunked chunks final

abbrev pub joined : (chunks : List (List ℕ)) (final : List ℕ) → List ℕ
joined [] final = final
joined (c ∷ chunks) final = c ++ joined chunks final

abbrev with_body : Capture → List ℕ → Capture
with_body c b = record c { body = b; finished = true }

capture_fits :
    (limit : ℕ) (chunk : List ℕ) (c : Capture)
    → c.oversized ≡ false
    → length (c.body ++ chunk) ≤ limit
    → capture_body limit chunk c ≡ record c { body = c.body ++ chunk }
capture_fits limit chunk c o l =
    let fits : ltb limit (length (c.body ++ chunk)) ≡ false = ground (arith, l) in rw (o, fits) refl

capture_chunked :
    (limit : ℕ) (chunks : List (List ℕ)) (final : List ℕ) (c : Capture)
    → c.oversized ≡ false
    → length (c.body ++ joined chunks final) ≤ limit
    → capture_all limit (chunked chunks final) c
      ≡ record c { body = c.body ++ joined chunks final; finished = true }
unfolding capture_all capture
capture_chunked limit [] final c o l =
    ap (λ (d : Capture). record d { finished = true }) (capture_fits limit final c o l)
capture_chunked limit (x ∷ chunks) final c o l =
    let fits = capture_fits limit x c o (
      omega (
        arith,
        l,
        length-append c.body x,
        length-append c.body (x ++ joined chunks final),
        length-append x (joined chunks final),
      )) in
    let same = append_assoc c.body x (joined chunks final) in
    ap (capture_all limit (chunked chunks final)) fits
    ∙ capture_chunked limit chunks final (record c { body = c.body ++ x }) o
        (subst (λ b. length b ≤ limit) (sym same) l)
    ∙ ap (λ b. with_body c b) same

-- What is kept of a response.
abbrev pub kept : (status : ℕ) (headers : List (List ℕ × List ℕ)) (body : List ℕ) → StoredResponse
kept status headers body = record {
  status_code = status;
  headers = without_cookies headers;
  body = body;
}

abbrev finished_capture : (status : ℕ) (headers : List (List ℕ × List ℕ)) (body : List ℕ) → Capture
finished_capture status headers body = record {
  status_code = status;
  headers = headers;
  body = body;
  oversized = false;
  finished = true;
}

is_kept : (status : ℕ) → status ≢ 408 → status ≢ 425 → status ≢ 429 → is_retryable status ≡ false
is_kept status a b c = ground (arith, a, b, c)

settle-kept :
    (status : ℕ) (headers : List (List ℕ × List ℕ)) (body fingerprint : List ℕ)
    → status < 500
    → is_retryable status ≡ false
    → settle fingerprint false (finished_capture status headers body)
      ≡ some (record { fingerprint = fingerprint; response = some (kept status headers body) })
unfolding settle
settle-kept status headers body fingerprint low k =
    let small : leb 500 status ≡ false = ground (arith, low) in rw (small, k) refl

-- Headers, and those of them that are no cookies, in their order.
pub data Stripped : List (List ℕ × List ℕ) → List (List ℕ × List ℕ) → Type 0 where
  no_headers : Stripped [] []
  cookie_dropped :
      (name value : List ℕ) (before after : List (List ℕ × List ℕ))
      → map lower name ≡ codes "set-cookie"
      → Stripped before after
      → Stripped ((name, value) ∷ before) after
  other_kept :
      (name value : List ℕ) (before after : List (List ℕ × List ℕ))
      → map lower name ≢ codes "set-cookie"
      → Stripped before after
      → Stripped ((name, value) ∷ before) ((name, value) ∷ after)

not_true_and_false : {b : Bool} → b ≡ true → ¬ (b ≡ false)
not_true_and_false t f = cc

Stripped-one :
    (name value : List ℕ) (before after : List (List ℕ × List ℕ))
    → Stripped before after
    → Stripped
        ((name, value) ∷ before)
        (if same_codes (map lower name) (codes "set-cookie") then after else (name, value) ∷ after)
Stripped-one name value before after h =
    elim (Bool-cases (same_codes (map lower name) (codes "set-cookie"))) [
      | inl e ↦ rw e (
          cookie_dropped name value before after
            (same_codes-true (map lower name) (codes "set-cookie") e) h)
      | inr e ↦ rw e (
          other_kept name value before after
            (λ q.
              not_true_and_false
                (ap (λ n. same_codes n (codes "set-cookie")) q
                  ∙ same_codes_self (codes "set-cookie"))
                e)
            h)
    ]

without_cookies-Stripped :
    (headers : List (List ℕ × List ℕ)) → Stripped headers (without_cookies headers)
unfolding without_cookies
without_cookies-Stripped [] = no_headers
without_cookies-Stripped ((name, value) ∷ rest) =
    Stripped-one name value rest (without_cookies rest) (without_cookies-Stripped rest)

Stripped-append :
    (name value : List ℕ) (before after : List (List ℕ × List ℕ))
    → map lower name ≢ codes "set-cookie"
    → Stripped before after
    → Stripped (before ++ (name, value) ∷ []) (after ++ (name, value) ∷ [])
Stripped-append name value before after n no_headers = other_kept name value [] [] n no_headers
Stripped-append name value before after n (cookie_dropped m v hs ks e h) =
    cookie_dropped m v _ _ e (Stripped-append name value hs ks n h)
Stripped-append name value before after n (other_kept m v hs ks e h) =
    other_kept m v _ _ e (Stripped-append name value hs ks n h)

-- What a client sees of the messages of a response.
pub record Seen : Type 0 where
  pub status : ℕ
  pub headers : List (List ℕ × List ℕ)
  pub body : List ℕ
  pub ended : Bool

abbrev pub see : List Sent → Seen → Seen
see [] s = s
see (response_start status headers ∷ rest) s =
    see rest (record s { status = status; headers = headers })
see (response_body chunk more ∷ rest) s =
    see rest (record s { body = s.body ++ chunk; ended = not more })

abbrev pub unseen : Seen
unseen = record { status = 0; headers = []; body = []; ended = false }

abbrev whole_body : Seen → List ℕ → Seen
whole_body s b = record s { body = b; ended = true }

see-chunked :
    (key : List ℕ) (chunks : List (List ℕ)) (final : List ℕ) (s : Seen)
    → see (map (forward key) (chunked chunks final)) s
      ≡ whole_body s (s.body ++ joined chunks final)
unfolding forward
see-chunked key [] final s = refl
see-chunked key (x ∷ chunks) final s =
    see-chunked key chunks final (record s { body = s.body ++ x; ended = false })
    ∙ ap (λ b. whole_body s b) (append_assoc s.body x (joined chunks final))

-- The second response is the first one again: its status, its whole body, and its headers but
-- cookies with the mark of a replay behind them.
pub record IsAgain (first again : Seen) : Type 0 where
  pub same_status : again.status ≡ first.status
  pub same_body : again.body ≡ first.body
  pub whole : (first.ended ≡ true) × (again.ended ≡ true)
  pub headers :
      (after : List (List ℕ × List ℕ)) × Stripped first.headers after
      × (again.headers ≡ after ++ (codes "idempotency-replayed", codes "true") ∷ [])

IsAgain-kept :
    (status : ℕ) (headers : List (List ℕ × List ℕ)) (chunks : List (List ℕ)) (final key : List ℕ)
    → IsAgain
        (see (map (forward key) (response_start status headers ∷ chunked chunks final)) unseen)
        (see (send_stored key (kept status headers (joined chunks final))) unseen)
unfolding send_stored forward
IsAgain-kept status headers chunks final key =
    let begun : Seen = record unseen {
      status = status;
      headers = headers ++ (key_header, key) ∷ [];
    } in
    subst
      (λ s. IsAgain s (see (send_stored key (kept status headers (joined chunks final))) unseen))
      (sym (see-chunked key chunks final begun))
      (record {
        same_status = refl;
        same_body = refl;
        whole = (refl, refl);
        headers = (
          without_cookies headers ++ (key_header, key) ∷ [],
          Stripped-append key_header key headers (without_cookies headers) (λ e. cc)
              (without_cookies-Stripped headers),
          sym (append_assoc (without_cookies headers) ((key_header, key) ∷ []) _),
        );
      })

-- A response that the app sends whole, with a status below 500 that is not 408, 425 or 429 and a
-- body no longer than the limit, completes the key. The same request is then answered with a stored
-- response, and what its client sees is what the first client saw: the status, the whole body, and
-- the headers but cookies, with the mark of a replay behind them.
pub stored_replayed :
    (limit status : ℕ) (headers : List (List ℕ × List ℕ)) (chunks : List (List ℕ))
    (final key fingerprint : List ℕ)
    → status < 500
    → status ≢ 408
    → status ≢ 425
    → status ≢ 429
    → length (joined chunks final) ≤ limit
    → (stored : StoredResponse) × (option_map (handle_existing fingerprint) (
          settle fingerprint false
            (capture_all limit (response_start status headers ∷ chunked chunks final) no_capture))
        ≡ some (replayed stored))
      × IsAgain
          (see (map (forward key) (response_start status headers ∷ chunked chunks final)) unseen)
          (see (send_stored key stored) unseen)
unfolding capture_all capture handle_existing
stored_replayed limit status headers chunks final key fingerprint low a b c l =
    let started : Capture = record no_capture { status_code = status; headers = headers } in
    (
      kept status headers (joined chunks final),
      ap (λ c. option_map (handle_existing fingerprint) (settle fingerprint false c))
            (capture_chunked limit chunks final started refl l)
          ∙ ap (option_map (handle_existing fingerprint)) (
              settle-kept status headers (joined chunks final) fingerprint low
                (is_kept status a b c))
          ∙ rw (same_codes_self fingerprint) refl,
      IsAgain-kept status headers chunks final key,
    )
