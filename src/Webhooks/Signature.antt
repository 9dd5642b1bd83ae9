-- ===== src/Webhooks/Signature.antt =====
-- The signature header of src/webhooks/signature.py. Texts are code points, bodies are bytes; the
-- HMAC is the library's, so it is the argument `mac` of a secret and a message, which gives a hex
-- digest. Lower case is that of ASCII: no other character becomes a hex digit.
pub mod RoundTrip
use Prim.Native.Nat.{ℕ}
use boilerplate_python_fasta.Prelude.{
  true, false, ℕ, List, Bool, Option, map, ◌∷◌, if◌then◌else◌, leb, ltb, [], ◌++◌, length, none,
  ◌==◌, ◌&&◌, some, ◌||◌, ◌+◌, option_map,
}
use boilerplate_python_fasta.Prelude.Text.{
  codes, show, strip, is_space, same_codes, split, is_digit, read_from,
}
use boilerplate_python_fasta.Prelude.Pattern.{chomp, all, match_plus}

pub data SignatureError : Type 0 where
  too_long empty too_many no_separator two_timestamps bad_timestamp : SignatureError
  bad_digest no_timestamp no_digest : SignatureError

pub record ParsedSignature : Type 0 where
  pub timestamp : ℕ
  pub digests : List (List ℕ)

pub data ParseResult : Type 0 where
  malformed : SignatureError → ParseResult
  parsed : ParsedSignature → ParseResult

unfoldable pub signed_material : (timestamp : ℕ) (body : List ℕ) → List ℕ
signed_material timestamp body = show timestamp ++ b'.' ∷ body

unfoldable pub compute_digest :
    (mac : List ℕ → List ℕ → List ℕ) (secret : List ℕ) (timestamp : ℕ) (body : List ℕ) → List ℕ
compute_digest mac secret timestamp body = mac secret (signed_material timestamp body)

unfoldable pub sign :
    (mac : List ℕ → List ℕ → List ℕ) (secret : List ℕ) (timestamp : ℕ) (body : List ℕ) → List ℕ
sign mac secret timestamp body =
    codes "t=" ++ (show timestamp ++ (codes ",v1=" ++ compute_digest mac secret timestamp body))

-- `text.partition(c)`; `none` where the separator is not there.
abbrev pub before : ℕ → List ℕ × List ℕ → List ℕ × List ℕ
before c (name, value) = (c ∷ name, value)

unfoldable pub partition_at : ℕ → List ℕ → Option (List ℕ × List ℕ)
partition_at sep [] = none
partition_at sep (c ∷ cs) =
    let rest = partition_at sep cs in if c == sep then some ([], cs) else option_map (before c) rest

-- `^[0-9]{1,19}$`
unfoldable pub matches_timestamp : List ℕ → Bool
matches_timestamp cs =
    leb 1 (length (chomp cs)) && leb (length (chomp cs)) 19 && all is_digit (chomp cs)

abbrev pub is_hex : ℕ → Bool
is_hex c = (leb b'0' c && leb c b'9') || (leb b'a' c && leb c b'f')

abbrev pub lower : ℕ → ℕ
lower c = if leb b'A' c && leb c b'Z' then c + 32 else c

-- `len(candidate) == 64` and `^[0-9a-f]+$`
unfoldable pub matches_digest : List ℕ → Bool
matches_digest cs = length cs == 64 && match_plus is_hex cs

-- What an element is, by its name; the value of a digest is in lower case.
pub data Element : Type 0 where
  unreadable other : Element
  timestamp_element : List ℕ → Element
  digest_element : List ℕ → Element

abbrev pub named : (name value : List ℕ) → Element
named name value =
    if same_codes name (codes "t")
    then timestamp_element value
    else if same_codes name (codes "v1")
    then digest_element (map lower value)
    else other

abbrev pub element_of_parts : Option (List ℕ × List ℕ) → Element
element_of_parts none = unreadable
element_of_parts (some (name, value)) = named (strip is_space name) (strip is_space value)

unfoldable pub element_of : List ℕ → Element
element_of e = element_of_parts (partition_at b'=' e)

-- One round of the loop over the elements, with the timestamp and the digests so far.
abbrev pub use_element :
    (Option ℕ → List (List ℕ) → ParseResult) → Element → Option ℕ → List (List ℕ) → ParseResult
use_element next unreadable t ds = malformed no_separator
use_element next (timestamp_element v) (some earlier) ds = malformed two_timestamps
use_element next (timestamp_element v) none ds =
    if matches_timestamp v then next (some (read_from 0 v)) ds else malformed bad_timestamp
use_element next (digest_element v) t ds =
    if matches_digest v then next t (ds ++ v ∷ []) else malformed bad_digest
use_element next other t ds = next t ds

unfoldable pub read_elements : List (List ℕ) → Option ℕ → List (List ℕ) → ParseResult
read_elements [] none ds = malformed no_timestamp
read_elements [] (some t) [] = malformed no_digest
read_elements [] (some t) (d ∷ ds) = parsed (record { timestamp = t; digests = d ∷ ds })
read_elements (e ∷ es) t ds = use_element (read_elements es) (element_of e) t ds

abbrev pub keep_filled : List (List ℕ) → List (List ℕ)
keep_filled [] = []
keep_filled ([] ∷ ls) = keep_filled ls
keep_filled ((c ∷ cs) ∷ ls) = (c ∷ cs) ∷ keep_filled ls

-- `[part.strip() for part in raw.split(",") if part.strip()]`
unfoldable pub elements_of : List ℕ → List (List ℕ)
elements_of raw = keep_filled (map (strip is_space) (split b',' raw))

abbrev pub read_some : List (List ℕ) → ParseResult
read_some [] = malformed empty
read_some (e ∷ es) =
    if ltb 16 (length (e ∷ es)) then malformed too_many else read_elements (e ∷ es) none []

unfoldable pub parse_signature_header : List ℕ → ParseResult
parse_signature_header raw =
    if ltb 4096 (length raw) then malformed too_long else read_some (elements_of raw)
