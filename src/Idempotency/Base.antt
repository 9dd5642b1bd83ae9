-- ===== src/Idempotency/Base.antt =====
-- src/idempotency/base.py. Texts are given encoded; `sha` is the hex digest of the library. Header
-- names and values are bytes.
pub mod Framing
use boilerplate_python_fasta.Prelude.Pattern.{match_plus}
use boilerplate_python_fasta.Prelude.{
  refl, ℕ, List, Option, ◌∷◌, Bool, ◌++◌, map, leb, some, if◌then◌else◌, length, take, ◌&&◌, [],
  ltb, none,
}
use boilerplate_python_fasta.Prelude.Text.{codes, show}
use boilerplate_python_fasta.Resilience.Policy.{upper}
use mathlib.Core.Option.{none}

pub record StoredResponse : Type 0 where
  pub status_code : ℕ
  pub headers : List (List ℕ × List ℕ)
  pub body : List ℕ

pub record IdempotencyRecord : Type 0 where
  pub fingerprint : List ℕ
  pub response : Option StoredResponse

pub data KeyError : Type 0 where
  empty_key long_key bad_key : KeyError

abbrev pub max_key_length : ℕ
max_key_length = 255

abbrev pub is_visible : ℕ → Bool
is_visible c = leb 33 c && leb c 126

-- `validate_idempotency_key`, whose pattern is `^[\x21-\x7e]+$`; `none` where it returns the key.
unfoldable pub validate_idempotency_key : List ℕ → Option KeyError
validate_idempotency_key [] = some empty_key
validate_idempotency_key (c ∷ cs) =
    if ltb max_key_length (length (c ∷ cs))
    then some long_key
    else if match_plus is_visible (c ∷ cs)
    then none
    else some bad_key

-- What `request_fingerprint` hashes: the parts, each after its length and a zero.
unfoldable pub framed : List (List ℕ) → List ℕ
framed [] = []
framed (part ∷ parts) = show (length part) ++ (0 ∷ (part ++ framed parts))

unfoldable pub request_fingerprint :
    (sha : List ℕ → List ℕ) (method path query body content_type : List ℕ) → List ℕ
request_fingerprint sha method path query body content_type =
    sha (framed (map upper method ∷ path ∷ query ∷ content_type ∷ body ∷ []))

unfoldable pub scope_fingerprint : (sha : List ℕ → List ℕ) → Option (List ℕ) → List ℕ
scope_fingerprint sha none = codes "anon"
scope_fingerprint sha (some []) = codes "anon"
scope_fingerprint sha (some (c ∷ cs)) = take 32 (sha (c ∷ cs))

abbrev pub storage_key : (scope key : List ℕ) → List ℕ
storage_key scope key = scope ++ b':' ∷ key
