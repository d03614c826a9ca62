-- ===== src/Base64/Tests.antt =====
-- The test vectors of RFC 4648, without padding, and the theorems on three bytes.
use gprxy.Common.{◌+◌, ◌*◌, ◌/◌, ◌≡◌, refl, some, none, [], ◌∷◌, length, arith, codes, All}
use gprxy.Base64.{encode, decode, encode_digit, decode_digit, digits_of, pack}
use gprxy.Base64.RoundTrip.{IsUrlSafe, decode-encode, encode_lem}

base64 : Unit {0}
unfolding encode decode encode_digit decode_digit digits_of pack
base64 = tt

encode_tests :
    (encode (codes "fooba") ≡ codes "Zm9vYmE")
    × (encode (255 ∷ 254 ∷ []) ≡ codes "__4")
    × (decode (codes "Zm9vYg") ≡ some (codes "foob"))
    × (decode (codes "Z") ≡ none)
unfolding base64
encode_tests = (refl, refl, refl, refl)

decode-encode_example : decode (encode (codes "foob")) ≡ some (codes "foob")
decode-encode_example = decode-encode (codes "foob") (ground arith)

encode_lem_example :
    (length (encode (codes "foob")) ≡ (4 * length (codes "foob") + 2) / 3)
    × All IsUrlSafe (encode (codes "foob"))
encode_lem_example = encode_lem (codes "foob")
