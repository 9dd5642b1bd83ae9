-- ===== src/Idempotency/Capture.antt =====
-- `_execute` and `_send_stored` of src/middleware/idempotency.py: what is kept of a response.
pub mod Replayed
use boilerplate_python_fasta.Prelude.{
  refl, ℕ, [], List, ◌∷◌, Option, Bool, true, false, some, ◌==◌, if◌then◌else◌, ◌++◌, ◌||◌, none,
  not, ltb, ◌&&◌, leb, map, length,
}
use boilerplate_python_fasta.Idempotency.Base.{
  StoredResponse, KeyError, IdempotencyRecord, storage_key, validate_idempotency_key,
  scope_fingerprint, request_fingerprint,
}
use boilerplate_python_fasta.Prelude.Text.{codes, same_codes}
use boilerplate_python_fasta.Resilience.Policy.{any}
use mathlib.Core.Option.{none}
use boilerplate_python_fasta.Webhooks.Signature.{lower}

-- A message that the app sends.
pub data Sent : Type 0 where
  response_start : (status : ℕ) (headers : List (List ℕ × List ℕ)) → Sent
  response_body : (body : List ℕ) (more_body : Bool) → Sent

-- What `capturing_send` remembers.
pub record Capture : Type 0 where
  pub status_code : ℕ
  pub headers : List (List ℕ × List ℕ)
  pub body : List ℕ
  pub oversized : Bool
  pub finished : Bool

abbrev pub no_capture : Capture
no_capture = record {
  status_code = 500;
  headers = [];
  body = [];
  oversized = false;
  finished = false;
}

abbrev pub key_header : List ℕ
key_header = codes "idempotency-key"

abbrev pub replayed_header : List ℕ
replayed_header = codes "idempotency-replayed"

abbrev pub capture_body : (limit : ℕ) (chunk : List ℕ) → Capture → Capture
capture_body limit chunk c =
    if c.oversized
    then c
    else if ltb limit (length (c.body ++ chunk))
    then record c { body = []; oversized = true }
    else record c { body = c.body ++ chunk }

-- `capturing_send`: what it remembers, and what it sends on.
unfoldable pub capture : (limit : ℕ) → Sent → Capture → Capture
capture limit (response_start status headers) c = record c {
  status_code = status;
  headers = headers;
}
capture limit (response_body chunk more) c =
    let c' = capture_body limit chunk c in if more then c' else record c' { finished = true }

unfoldable pub forward : (key : List ℕ) → Sent → Sent
forward key (response_start status headers) =
    response_start status (headers ++ (key_header, key) ∷ [])
forward key (response_body chunk more) = response_body chunk more

unfoldable pub capture_all : (limit : ℕ) → List Sent → Capture → Capture
capture_all limit [] c = c
capture_all limit (m ∷ rest) c = capture_all limit rest (capture limit m c)

abbrev pub is_retryable : ℕ → Bool
is_retryable status = status == 408 || status == 425 || status == 429

-- The filter of `_STRIPPED_RESPONSE_HEADERS`.
unfoldable pub without_cookies : List (List ℕ × List ℕ) → List (List ℕ × List ℕ)
without_cookies [] = []
without_cookies ((name, value) ∷ rest) =
    let kept = without_cookies rest in
    if same_codes (map lower name) (codes "set-cookie") then kept else (name, value) ∷ kept

-- What `_execute` does with the key when the app is done: the record to complete it with, or none
-- to release it. `raised` tells that the app raised.
unfoldable pub settle : (fingerprint : List ℕ) (raised : Bool) → Capture → Option IdempotencyRecord
settle fingerprint raised c =
    if raised
    then none
    else if not c.finished || c.oversized || leb 500 c.status_code
    then none
    else if is_retryable c.status_code
    then none
    else some (record {
      fingerprint = fingerprint;
      response = some (record {
        status_code = c.status_code;
        headers = without_cookies c.headers;
        body = c.body;
      });
    })

-- `_send_stored`
unfoldable pub send_stored : (key : List ℕ) → StoredResponse → List Sent
send_stored key stored =
    response_start stored.status_code
      (stored.headers ++ (key_header, key) ∷ (replayed_header, codes "true") ∷ [])
    ∷ response_body stored.body false
    ∷ []
