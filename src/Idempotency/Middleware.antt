-- ===== src/Idempotency/Middleware.antt =====
-- `IdempotencyMiddleware.__call__` of src/middleware/idempotency.py. Logging is left out.
use boilerplate_python_fasta.Prelude.{
  ℕ, [], List, ◌∷◌, Option, Bool, true, false, some, ◌==◌, if◌then◌else◌, ◌||◌, none, not, ◌&&◌,
}
use boilerplate_python_fasta.Idempotency.Base.{
  StoredResponse, KeyError, IdempotencyRecord, storage_key, validate_idempotency_key,
  scope_fingerprint, request_fingerprint,
}
use boilerplate_python_fasta.Prelude.Text.{same_codes}
use boilerplate_python_fasta.Resilience.Policy.{any}
use mathlib.Core.Option.{none}
use boilerplate_python_fasta.Idempotency.Buffer.{Buffered, buffer_request, Message}

pub record IdempotencyConfig : Type 0 where
  pub methods : List (List ℕ)
  pub path_prefixes : List (List ℕ)
  pub max_request_body_bytes : ℕ
  pub max_response_body_bytes : ℕ
  pub fail_open : Bool
  pub enabled : Bool

pub record Request : Type 0 where
  pub is_http : Bool
  pub method : List ℕ
  pub path : List ℕ
  pub query : List ℕ
  pub content_type : List ℕ
  pub authorization : Option (List ℕ)
  pub idempotency_key : Option (List ℕ)
  pub messages : List Message

pub data Refusal : Type 0 where
  key_invalid : KeyError → Refusal
  key_reused key_in_progress store_unavailable : Refusal

-- How a request is answered: by the app as if there were no middleware, with an error, with a
-- stored response, or by the app under a reservation.
pub data Admission : Type 0 where
  passed : Admission
  refused : Refusal → Admission
  replayed : StoredResponse → Admission
  executing : (full_key fingerprint : List ℕ) → Admission

unfoldable pub starts_with : (prefix text : List ℕ) → Bool
starts_with [] cs = true
starts_with (p ∷ ps) [] = false
starts_with (p ∷ ps) (c ∷ cs) = p == c && starts_with ps cs

unfoldable pub applies_to : IdempotencyConfig → Request → Bool
applies_to config r =
    any (same_codes r.method) config.methods
    && any (λ prefix. starts_with prefix r.path) config.path_prefixes

abbrev pub handle_response : Option StoredResponse → Admission
handle_response none = refused key_in_progress
handle_response (some stored) = replayed stored

-- `_handle_existing`
unfoldable pub handle_existing : (fingerprint : List ℕ) → IdempotencyRecord → Admission
handle_existing fingerprint r =
    if same_codes r.fingerprint fingerprint then handle_response r.response else refused key_reused

-- What `__call__` makes of the answer of `reserve`; `none` is its exception.
abbrev pub admit :
    IdempotencyConfig
    → (full_key fingerprint : List ℕ) → Option (Option IdempotencyRecord)
    → Admission
admit config full_key fingerprint none =
    if config.fail_open then passed else refused store_unavailable
admit config full_key fingerprint (some none) = executing full_key fingerprint
admit config full_key fingerprint (some (some existing)) = handle_existing fingerprint existing

abbrev pub reserve_with :
    {S : Type 0}
    → (reserve : (key fingerprint : List ℕ) → S → Option (Option IdempotencyRecord) × S)
    → IdempotencyConfig
    → (full_key fingerprint : List ℕ) → S
    → Admission × S
reserve_with reserve config full_key fingerprint s =
    let (answer, s') = reserve full_key fingerprint s in
    (admit config full_key fingerprint answer, s')

abbrev pub handle_buffered :
    {S : Type 0}
    → (sha : List ℕ → List ℕ)
      (reserve : (key fingerprint : List ℕ) → S → Option (Option IdempotencyRecord) × S)
    → IdempotencyConfig
    → Request
    → (key : List ℕ) → Buffered
    → S
    → Admission × S
handle_buffered sha reserve config r key b s =
    if b.truncated
    then (passed, s)
    else reserve_with reserve config (storage_key (scope_fingerprint sha r.authorization) key)
        (request_fingerprint sha r.method r.path r.query b.body r.content_type) s

abbrev pub handle_key :
    {S : Type 0}
    → (sha : List ℕ → List ℕ)
      (reserve : (key fingerprint : List ℕ) → S → Option (Option IdempotencyRecord) × S)
    → IdempotencyConfig
    → Request
    → (key : List ℕ) → Option KeyError
    → S
    → Admission × S
handle_key sha reserve config r key (some e) s = (refused (key_invalid e), s)
handle_key sha reserve config r key none s =
    handle_buffered sha reserve config r key
      (buffer_request config.max_request_body_bytes [] r.messages) s

abbrev pub handle_header :
    {S : Type 0}
    → (sha : List ℕ → List ℕ)
      (reserve : (key fingerprint : List ℕ) → S → Option (Option IdempotencyRecord) × S)
    → IdempotencyConfig
    → Request
    → Option (List ℕ)
    → S
    → Admission × S
handle_header sha reserve config r none s = (passed, s)
handle_header sha reserve config r (some key) s =
    handle_key sha reserve config r key (validate_idempotency_key key) s

-- `__call__` up to the answer, or to `_execute`.
unfoldable pub handle :
    {S : Type 0}
    → (sha : List ℕ → List ℕ)
      (reserve : (key fingerprint : List ℕ) → S → Option (Option IdempotencyRecord) × S)
    → IdempotencyConfig
    → Request
    → S
    → Admission × S
handle sha reserve config r s =
    if not r.is_http || not config.enabled
    then (passed, s)
    else if applies_to config r
    then handle_header sha reserve config r r.idempotency_key s
    else (passed, s)
