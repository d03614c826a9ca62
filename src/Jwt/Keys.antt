-- ===== src/Jwt/Keys.antt =====
-- internal/auth/jwt.go: the validator, `getPublicKey` and `fetchJWKS`. An HTTP exchange and the
-- decoding of its body are an input, `Reply`; moments are inputs too.
use gprxy.Common.{
  ℕ, ◌+◌, ◌*◌, ◌%◌, ◌^◌, Bool, ◌&&◌, Option, none, some, List, [], ◌∷◌, Text, codes, Text_eq, ◌==◌,
  Map, lookup, insert, if◌then◌else◌, ℤ, zero_time, since_lt, minute, Outcome, ok, err, Error,
  request_failed, fetch_failed, bad_jwks, bad_modulus, bad_exponent, unknown_key, bad_status,
  nat_eq,
}
use gprxy.Base64.{decode}

-- `E` is a Go `int` of 64 bits, held here as its bit pattern.
pub record PublicKey : Type 0 where
  pub modulus : ℕ
  pub exponent : ℕ

pub record Validator : Type 0 where
  pub issuer : Text
  pub audience : Text
  pub jwks_url : Text
  pub public_keys : Map Text PublicKey
  pub last_keys_fetch : ℤ
  pub keys_cache_ttl : ℕ

pub record Jwk : Type 0 where
  pub kid : Text
  pub kty : Text
  pub use_ : Text
  pub n : Text
  pub e : Text
  pub alg : Text

unfoldable pub new_validator : Text → Text → Text → Validator
new_validator issuer audience url = record {
  issuer = issuer;
  audience = audience;
  jwks_url = url;
  public_keys = [];
  last_keys_fetch = zero_time;
  keys_cache_ttl = 60 * minute;
}

-- The request cannot be made, gets no answer, or gets a status and a body, `none` if the body does
-- not decode.
pub data Reply : Type 0 where
  no_request no_answer : Reply
  answer : ℕ → Option (List Jwk) → Reply

-- `new(big.Int).SetBytes`
abbrev pub big_endian_from : ℕ → List ℕ → ℕ
big_endian_from n [] = n
big_endian_from n (b ∷ bytes) = big_endian_from (n * 256 + b) bytes

abbrev pub big_endian : List ℕ → ℕ
big_endian = big_endian_from 0

-- The loop `E = E<<8 + int(b)`.
unfoldable pub exponent_from : ℕ → List ℕ → ℕ
exponent_from e [] = e
exponent_from e (b ∷ bytes) = exponent_from ((e * 256 + b) % 2 ^ 64) bytes

abbrev pub key_from : Option (List ℕ) → Option (List ℕ) → Outcome PublicKey
key_from none e = err bad_modulus
key_from (some n) none = err bad_exponent
key_from (some n) (some e) = ok (record { modulus = big_endian n; exponent = exponent_from 0 e })

unfoldable pub parse_key : Jwk → Outcome PublicKey
unfolding exponent_from
parse_key jwk = key_from (decode jwk.n) (decode jwk.e)

abbrev pub is_signing_key : Jwk → Bool
is_signing_key jwk = jwk.kty == codes "RSA" && jwk.use_ == codes "sig"

-- The loop over the keys: those before a bad one stay loaded.
abbrev pub put_key :
    Text
    → Outcome PublicKey
    → Map Text PublicKey
    → (Map Text PublicKey → Outcome (Unit {0}) × Map Text PublicKey)
    → Outcome (Unit {0}) × Map Text PublicKey
put_key kid (ok key) m rest = rest (insert kid key m)
put_key kid (err e) m rest = (err e, m)
put_key kid Outcome.panics m rest = (Outcome.panics, m)
put_key kid Outcome.blocks m rest = (Outcome.blocks, m)

unfoldable pub load_keys : List Jwk → Map Text PublicKey → Outcome (Unit {0}) × Map Text PublicKey
load_keys [] m = (ok tt, m)
load_keys (jwk ∷ jwks) m =
    let skipped = load_keys jwks m in
    if is_signing_key jwk then put_key jwk.kid (parse_key jwk) m (load_keys jwks) else skipped

abbrev pub loaded :
    ℤ → Validator → Outcome (Unit {0}) × Map Text PublicKey → Outcome (Unit {0}) × Validator
loaded now v (ok _, m) = (ok tt, record v { public_keys = m; last_keys_fetch = now })
loaded now v (r, m) = (r, record v { public_keys = m })

abbrev pub decoded : ℤ → Option (List Jwk) → Validator → Outcome (Unit {0}) × Validator
decoded now none v = (err bad_jwks, v)
decoded now (some jwks) v = loaded now v (load_keys jwks v.public_keys)

-- `now` is the moment when the keys are loaded.
unfoldable pub fetch_jwks : Reply → ℤ → Validator → Outcome (Unit {0}) × Validator
unfolding load_keys
fetch_jwks Reply.no_request now v = (err request_failed, v)
fetch_jwks Reply.no_answer now v = (err fetch_failed, v)
fetch_jwks (answer status body) now v =
    if nat_eq status 200 then decoded now body v else (err (bad_status status), v)

-- One run of `getPublicKey`: the moments of its two looks at the clock, what the other goroutines
-- do to the validator between the two locks, and the fetch.
pub record Round : Type 0 where
  pub at_read : ℤ
  pub others : Validator → Validator
  pub at_lock : ℤ
  pub reply : Reply
  pub at_fetch : ℤ

-- The key, if it is there and the cache has not expired.
abbrev pub if_fresh : ℤ → Validator → Option PublicKey → Option PublicKey
if_fresh now v none = none
if_fresh now v (some key) =
    if since_lt now v.last_keys_fetch v.keys_cache_ttl then some key else none

abbrev pub fresh_key : ℤ → Text → Validator → Option PublicKey
fresh_key now kid v = if_fresh now v (lookup kid v.public_keys)

-- Whether a key is there decides, after a fetch that worked and after one that failed.
abbrev pub or_error : Option PublicKey → Error → Outcome PublicKey
or_error none e = err e
or_error (some key) e = ok key

abbrev pub after_fetch : Text → Outcome (Unit {0}) × Validator → Outcome PublicKey × Validator
after_fetch kid (ok _, v) = (or_error (lookup kid v.public_keys) unknown_key, v)
after_fetch kid (err e, v) = (or_error (lookup kid v.public_keys) e, v)
after_fetch kid (Outcome.panics, v) = (Outcome.panics, v)
after_fetch kid (Outcome.blocks, v) = (Outcome.blocks, v)

abbrev pub or_fetch : Round → Text → Option PublicKey → Validator → Outcome PublicKey × Validator
or_fetch round kid (some key) v = (ok key, v)
or_fetch round kid none v = after_fetch kid (fetch_jwks round.reply round.at_fetch v)

abbrev pub or_lock : Round → Text → Option PublicKey → Validator → Outcome PublicKey × Validator
or_lock round kid (some key) v = (ok key, v)
or_lock round kid none v =
    let v' = round.others v in or_fetch round kid (fresh_key round.at_lock kid v') v'

unfoldable pub get_public_key : Round → Text → Validator → Outcome PublicKey × Validator
unfolding fetch_jwks
get_public_key round kid v = or_lock round kid (fresh_key round.at_read kid v) v
