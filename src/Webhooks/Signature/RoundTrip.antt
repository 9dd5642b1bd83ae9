-- ===== src/Webhooks/Signature/RoundTrip.antt =====
-- A header that `sign` of src/webhooks/signature.py makes is read back.
use boilerplate_python_fasta.Prelude.{
  refl, List, ℕ, ◌≤◌, length, Bool, ◌<◌, not, ◌≡◌, ◌^◌, suc, true, map, ◌==◌, ◌∷◌, arith, zero, [],
  ap, ◌*◌, length-append, ◌/◌, ◌++◌, ◌+◌, ◌%◌, ◌∙◌, none, ltb, false,
}
use boilerplate_python_fasta.Prelude.Pattern.{match_star-all, all, chomp, match_plus}
use boilerplate_python_fasta.Prelude.Text.{
  digits, is_digit, is_space, and_left, and_right, show, all-show, show-cons, strip, split_piece,
  split_free, strip_free, read-show,
}
use boilerplate_python_fasta.Webhooks.Signature.{
  is_hex, lower, matches_timestamp, elements_of, keep_filled, read_elements, parse_signature_header,
  sign, matches_digest, compute_digest, partition_at, parsed, element_of, digest_element,
  timestamp_element,
}

-- What the library's HMAC gives, in hex.
abbrev pub IsHexDigest : List ℕ → Type 0
IsHexDigest ds = (length ds ≡ 64) × (all is_hex ds ≡ true)

all_by :
    (p q : ℕ → Bool)
    → ((c : ℕ) → p c ≡ true → q c ≡ true)
    → (cs : List ℕ) → all p cs ≡ true
    → all q cs ≡ true
all_by p q f [] h = refl
all_by p q f (c ∷ cs) h = rw (f c (and_left (p c) _ h)) (all_by p q f cs (and_right (p c) _ h))

digit_no_comma : (c : ℕ) → is_digit c ≡ true → not (c == b',') ≡ true
digit_no_comma c h = ground arith

hex_no_comma : (c : ℕ) → is_hex c ≡ true → not (c == b',') ≡ true
hex_no_comma c h = ground arith

no_space_above : (c : ℕ) → 33 ≤ c → c ≤ 132 → not (is_space c) ≡ true
unfolding is_space
no_space_above c l u = ground arith

digit_no_space : (c : ℕ) → is_digit c ≡ true → not (is_space c) ≡ true
digit_no_space c h = no_space_above c (ground arith) (ground arith)

hex_no_space : (c : ℕ) → is_hex c ≡ true → not (is_space c) ≡ true
hex_no_space c h = no_space_above c (ground arith) (ground arith)

hex-lower : (c : ℕ) → is_hex c ≡ true → lower c ≡ c
hex-lower c h = ground arith

map-lower : (cs : List ℕ) → all is_hex cs ≡ true → map lower cs ≡ cs
map-lower [] h = refl
map-lower (c ∷ cs) h =
    ground (arith, hex-lower c (and_left (is_hex c) _ h), map-lower cs (and_right (is_hex c) _ h))

chomp_free : (cs : List ℕ) → all (λ c. not (c == 10)) cs ≡ true → chomp cs ≡ cs
chomp_free [] h = refl
chomp_free (c ∷ []) h = ground arith
chomp_free (c ∷ d ∷ cs) h = ap (λ t. c ∷ t) (chomp_free (d ∷ cs) (and_right (not (c == 10)) _ h))

abbrev power : ℕ → ℕ
power zero = 1
power (suc k) = 10 * power k

length-digits : (fuel n k : ℕ) → n < power (suc k) → length (digits fuel n) ≤ suc k
unfolding digits
length-digits zero n k h = omega arith
length-digits (suc fuel) n zero h = ground arith
length-digits (suc fuel) n (suc k) h = ground (
  arith,
  length-append (digits fuel (n / 10)) ((48 + n % 10) ∷ []),
  length-digits fuel (n / 10) k (omega (arith, h)),
)

digits_nonempty : (n : ℕ) → 1 ≤ length (show n)
digits_nonempty n = let (d, ds, e) = show-cons n in rw e (omega arith)

show-matches_timestamp : (t : ℕ) → t < 10 ^ 19 → matches_timestamp (show t) ≡ true
unfolding matches_timestamp show
show-matches_timestamp t h =
    rw
      (
        chomp_free (show t) (all_by is_digit _ (λ c d. ground arith) (show t) (all-show t)),
        all-show t,
      )
      (ground (arith, length-digits (suc t) t 18 h, digits_nonempty t))

-- The elements of a signed header.
signed_elements :
    (ts ds : List ℕ)
    → all is_digit ts ≡ true
    → all is_hex ds ≡ true
    → elements_of (b't' ∷ b'=' ∷ ts ++ b',' ∷ b'v' ∷ b'1' ∷ b'=' ∷ ds)
      ≡ (b't' ∷ b'=' ∷ ts) ∷ (b'v' ∷ b'1' ∷ b'=' ∷ ds) ∷ []
unfolding elements_of is_space
signed_elements ts ds h k =
    ap (λ ls. keep_filled (map (strip is_space) ls))
      (split_piece b',' (b't' ∷ b'=' ∷ ts) (b'v' ∷ b'1' ∷ b'=' ∷ ds)
          (all_by is_digit _ digit_no_comma ts h)
        ∙ ap (λ ls. (b't' ∷ b'=' ∷ ts) ∷ ls)
            (split_free b',' (b'v' ∷ b'1' ∷ b'=' ∷ ds) (all_by is_hex _ hex_no_comma ds k)))
    ∙ ap (λ (x : List ℕ × List ℕ). keep_filled (x.0 ∷ x.1 ∷ []))
        (λ i. (
          strip_free is_space (b't' ∷ b'=' ∷ ts) (all_by is_digit _ digit_no_space ts h) i,
          strip_free is_space (b'v' ∷ b'1' ∷ b'=' ∷ ds) (all_by is_hex _ hex_no_space ds k) i,
        ))

unfolded_sign :
    (mac : List ℕ → List ℕ → List ℕ) (secret : List ℕ) (t : ℕ) (body : List ℕ)
    → sign mac secret t body
      ≡ b't' ∷ b'=' ∷ show t ++ b',' ∷ b'v' ∷ b'1' ∷ b'=' ∷ compute_digest mac secret t body
unfolding sign
unfolded_sign mac secret t body = refl

matches-IsHexDigest : (ds : List ℕ) → IsHexDigest ds → matches_digest ds ≡ true
unfolding matches_digest match_plus
matches-IsHexDigest [] h = absurd (omega (arith, h.0))
matches-IsHexDigest (d ∷ ds) h =
    ground (arith, h.0, h.1, match_star-all is_hex ds (and_right (is_hex d) _ h.1))

timestamp_part : (t : ℕ) → element_of (b't' ∷ b'=' ∷ show t) ≡ timestamp_element (show t)
unfolding element_of partition_at strip is_space
timestamp_part t =
    ap timestamp_element
      (strip_free is_space (show t) (all_by is_digit _ digit_no_space (show t) (all-show t)))

digest_part :
    (ds : List ℕ) → IsHexDigest ds → element_of (b'v' ∷ b'1' ∷ b'=' ∷ ds) ≡ digest_element ds
unfolding element_of partition_at strip is_space
digest_part ds h =
    ap (λ v. digest_element (map lower v))
      (strip_free is_space ds (all_by is_hex _ hex_no_space ds h.1))
    ∙ ap digest_element (map-lower ds h.1)

read_signed :
    (t : ℕ) (ds : List ℕ)
    → t < 10 ^ 19
    → IsHexDigest ds
    → read_elements ((b't' ∷ b'=' ∷ show t) ∷ (b'v' ∷ b'1' ∷ b'=' ∷ ds) ∷ []) none []
      ≡ parsed (record { timestamp = t; digests = ds ∷ [] })
unfolding read_elements
read_signed t ds l h =
    rw
      (
        read_elements,
        timestamp_part t,
        show-matches_timestamp t l,
        read-show t,
        digest_part ds h,
        matches-IsHexDigest ds h,
      )
      refl

short_header :
    (ts ds : List ℕ)
    → length ts ≤ 19
    → length ds ≡ 64
    → ltb 4096 (length (b't' ∷ b'=' ∷ ts ++ b',' ∷ b'v' ∷ b'1' ∷ b'=' ∷ ds)) ≡ false
short_header ts ds l h = ground (arith, length-append ts (b',' ∷ b'v' ∷ b'1' ∷ b'=' ∷ ds))

-- The header that `sign` makes, of a timestamp of at most nineteen digits and with an HMAC that
-- gives a hex SHA-256 digest, is read as that timestamp and that one digest.
pub parse-sign :
    (mac : List ℕ → List ℕ → List ℕ) (secret : List ℕ) (t : ℕ) (body : List ℕ)
    → t < 10 ^ 19
    → IsHexDigest (compute_digest mac secret t body)
    → parse_signature_header (sign mac secret t body)
      ≡ parsed (record { timestamp = t; digests = compute_digest mac secret t body ∷ [] })
unfolding parse_signature_header show
parse-sign mac secret t body l h =
    let ds = compute_digest mac secret t body in
    ap parse_signature_header (unfolded_sign mac secret t body)
    ∙ rw
        (
          short_header (show t) ds (length-digits (suc t) t 18 l) h.0,
          signed_elements (show t) ds (all-show t) h.1,
        )
        (read_signed t ds l h)
