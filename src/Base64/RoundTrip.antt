-- ===== src/Base64/RoundTrip.antt =====
-- Decoding undoes encoding, and what encoding yields.
use gprxy.Common.{
  ℕ, ◌+◌, ◌*◌, ◌/◌, ◌%◌, ◌≤◌, ◌<◌, ◌≡◌, refl, ◌≢◌, ◌⊎◌, some, List, [], ◌∷◌, arith, Text, length,
  All,
}
use gprxy.Base64.{encode_digit, decode_digit, encode, digits_of, pack, decode}

-- A letter, a digit, '-' or '_'.
abbrev pub IsUrlSafe : ℕ → Type 0
IsUrlSafe c =
    ((b'A' ≤ c) × (c ≤ b'Z'))
    ⊎ ((b'a' ≤ c) × (c ≤ b'z'))
    ⊎ ((b'0' ≤ c) × (c ≤ b'9'))
    ⊎ (c ≡ b'-')
    ⊎ (c ≡ b'_')

encode_digit-IsUrlSafe : (n : ℕ) → IsUrlSafe (encode_digit n)
unfolding encode_digit
encode_digit-IsUrlSafe n = ground arith

decode_digit-encode_digit : (n : ℕ) → n < 64 → decode_digit (encode_digit n) ≡ some n
unfolding encode_digit decode_digit
decode_digit-encode_digit n h = ground arith

encode_digit-ne-newline : (n : ℕ) → (encode_digit n ≢ 10) × (encode_digit n ≢ 13)
unfolding encode_digit
encode_digit-ne-newline n = ground arith

digits_of-cons :
    (n : ℕ) (s : Text) (ds : List ℕ)
    → n < 64
    → digits_of s ≡ some ds
    → digits_of (encode_digit n ∷ s) ≡ some (n ∷ ds)
unfolding digits_of
digits_of-cons n s ds h e = ground (arith, decode_digit-encode_digit n h, encode_digit-ne-newline n)

abbrev pub AllBytes : List ℕ → Type 0
AllBytes = All (λ b. b < 256)

pack-four :
    (a b c : ℕ) (bytes ds : List ℕ)
    → a < 256
    → b < 256
    → c < 256
    → pack ds ≡ some bytes
    → pack (a / 4 ∷ (a % 4 * 16 + b / 16) ∷ (b % 16 * 4 + c / 64) ∷ c % 64 ∷ ds)
      ≡ some (a ∷ b ∷ c ∷ bytes)
unfolding pack
pack-four a b c bytes ds ha hb hc e = ground arith

pack-three :
    (a b : ℕ)
    → a < 256
    → b < 256
    → pack (a / 4 ∷ (a % 4 * 16 + b / 16) ∷ b % 16 * 4 ∷ []) ≡ some (a ∷ b ∷ [])
unfolding pack
pack-three a b ha hb = ground arith

pack-two : (a : ℕ) → a < 256 → pack (a / 4 ∷ a % 4 * 16 ∷ []) ≡ some (a ∷ [])
unfolding pack
pack-two a ha = ground arith

digits_of-nil : digits_of [] ≡ some []
unfolding digits_of
digits_of-nil = refl

-- The digits of an encoding, and what they pack to.
digits_of-encode :
    (bytes : List ℕ)
    → AllBytes bytes
    → (ds : List ℕ) × (digits_of (encode bytes) ≡ some ds) × (pack ds ≡ some bytes)
unfolding encode
digits_of-encode [] h = ([], unfold digits_of in refl, unfold pack in refl)
digits_of-encode (a ∷ []) (ha, _) = (
  a / 4 ∷ a % 4 * 16 ∷ [],
  digits_of-cons _ _ _ (omega arith) (digits_of-cons _ _ _ (omega arith) digits_of-nil),
  pack-two a ha,
)
digits_of-encode (a ∷ b ∷ []) (ha, (hb, _)) = (
  a / 4 ∷ (a % 4 * 16 + b / 16) ∷ b % 16 * 4 ∷ [],
  digits_of-cons _ _ _ (omega arith)
      (digits_of-cons _ _ _ (omega arith) (digits_of-cons _ _ _ (omega arith) digits_of-nil)),
  pack-three a b ha hb,
)
digits_of-encode (a ∷ b ∷ c ∷ bytes) (ha, (hb, (hc, h))) =
    let (ds, e, p) = digits_of-encode bytes h in
    (
      a / 4 ∷ (a % 4 * 16 + b / 16) ∷ (b % 16 * 4 + c / 64) ∷ c % 64 ∷ ds,
      digits_of-cons _ _ _ (omega arith) (
          digits_of-cons _ _ _ (omega arith)
            (digits_of-cons _ _ _ (omega arith) (digits_of-cons _ _ _ (omega arith) e))),
      pack-four a b c bytes ds ha hb hc p,
    )

-- Decoding what was encoded gives back the bytes.
pub decode-encode : (bytes : List ℕ) → AllBytes bytes → decode (encode bytes) ≡ some bytes
unfolding decode
decode-encode bytes h = let (ds, e, p) = digits_of-encode bytes h in rw e p

-- An encoding of n bytes has (4 n + 2) / 3 characters, each a letter, a digit, '-' or '_'.
pub encode_lem :
    (bytes : List ℕ)
    → (length (encode bytes) ≡ (4 * length bytes + 2) / 3) × All IsUrlSafe (encode bytes)
unfolding encode
encode_lem [] = (omega arith, tt)
encode_lem (a ∷ []) = (omega arith, (encode_digit-IsUrlSafe _, (encode_digit-IsUrlSafe _, tt)))
encode_lem (a ∷ b ∷ []) = (
  omega arith,
  (encode_digit-IsUrlSafe _, (encode_digit-IsUrlSafe _, (encode_digit-IsUrlSafe _, tt))),
)
encode_lem (a ∷ b ∷ c ∷ bytes) =
    let (size, safe) = encode_lem bytes in
    (
      omega arith,
      (
        encode_digit-IsUrlSafe _,
        (encode_digit-IsUrlSafe _, (encode_digit-IsUrlSafe _, (encode_digit-IsUrlSafe _, safe))),
      ),
    )
