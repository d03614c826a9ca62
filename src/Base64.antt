-- ===== src/Base64.antt =====
-- `base64.RawURLEncoding` of the standard library, as internal/auth/jwt.go reads key parameters
-- with it and internal/cli writes PKCE verifiers and reads token payloads with it.
pub mod RoundTrip
mod Tests
use gprxy.Common.{
  ℕ, ◌+◌, ◌-◌, ◌*◌, ◌/◌, ◌%◌, Bool, true, false, ◌&&◌, ◌||◌, Option, none, some, List, [], ◌∷◌,
  Text, leb, ltb, nat_eq, if◌then◌else◌,
}

unfoldable pub encode_digit : ℕ → ℕ
encode_digit n =
    if ltb n 26
    then n + b'A'
    else if ltb n 52
    then n - 26 + b'a'
    else if ltb n 62
    then n - 52 + b'0'
    else if nat_eq n 62
    then b'-'
    else b'_'

unfoldable pub decode_digit : ℕ → Option ℕ
decode_digit c =
    if leb b'A' c && leb c b'Z'
    then some (c - b'A')
    else if leb b'a' c && leb c b'z'
    then some (c - b'a' + 26)
    else if leb b'0' c && leb c b'9'
    then some (c - b'0' + 52)
    else if nat_eq c b'-'
    then some 62
    else if nat_eq c b'_'
    then some 63
    else none

-- `EncodeToString`, with no padding.
unfoldable pub encode : List ℕ → Text
encode [] = []
encode (a ∷ []) = encode_digit (a / 4) ∷ encode_digit (a % 4 * 16) ∷ []
encode (a ∷ b ∷ []) =
    encode_digit (a / 4) ∷ encode_digit (a % 4 * 16 + b / 16) ∷ encode_digit (b % 16 * 4) ∷ []
encode (a ∷ b ∷ c ∷ bytes) =
    encode_digit (a / 4)
    ∷ encode_digit (a % 4 * 16 + b / 16)
    ∷ encode_digit (b % 16 * 4 + c / 64)
    ∷ encode_digit (c % 64)
    ∷ encode bytes

abbrev pub cons_digit : Option ℕ → Option (List ℕ) → Option (List ℕ)
cons_digit none rest = none
cons_digit (some d) none = none
cons_digit (some d) (some ds) = some (d ∷ ds)

-- The values of the characters; line ends are skipped.
unfoldable pub digits_of : Text → Option (List ℕ)
unfolding decode_digit
digits_of [] = some []
digits_of (c ∷ s) =
    let rest = digits_of s in
    if nat_eq c 10 || nat_eq c 13 then rest else cons_digit (decode_digit c) rest

abbrev pub cons_bytes : ℕ → ℕ → ℕ → Option (List ℕ) → Option (List ℕ)
cons_bytes a b c none = none
cons_bytes a b c (some bytes) = some (a ∷ b ∷ c ∷ bytes)

-- Groups of four digits; one digit left over is an error, and spare bits are dropped.
unfoldable pub pack : List ℕ → Option (List ℕ)
pack [] = some []
pack (p ∷ []) = none
pack (p ∷ q ∷ []) = some ((p * 4 + q / 16) ∷ [])
pack (p ∷ q ∷ r ∷ []) = some ((p * 4 + q / 16) ∷ (q % 16 * 16 + r / 4) ∷ [])
pack (p ∷ q ∷ r ∷ s ∷ ds) =
    cons_bytes (p * 4 + q / 16) (q % 16 * 16 + r / 4) (r % 4 * 64 + s) (pack ds)

abbrev pub pack_all : Option (List ℕ) → Option (List ℕ)
pack_all none = none
pack_all (some ds) = pack ds

-- `DecodeString`
unfoldable pub decode : Text → Option (List ℕ)
unfolding digits_of pack
decode s = pack_all (digits_of s)
