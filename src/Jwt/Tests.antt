-- ===== src/Jwt/Tests.antt =====
-- internal/auth/jwt.go on a token, a cache and a list of keys, and the theorems at work.
use gprxy.Common.{
  ℕ, ◌*◌, ◌%◌, ◌^◌, ◌≡◌, ◌↔◌, refl, true, none, some, List, [], ◌∷◌, arith, Text, Text_eq, text_eq,
  codes, Map, lookup, insert, unix, pos, minute, ok, err, Error,
}
use gprxy.Base64.{encode, decode, encode_digit, decode_digit, digits_of, pack}
use gprxy.Jwt.Values.{Claims, str, arr, num, nil, cons}
use gprxy.Jwt.Keys.{
  PublicKey, Validator, Jwk, Round, answer, new_validator, big_endian, exponent_from, parse_key,
  load_keys, fetch_jwks, get_public_key,
}
use gprxy.Jwt.{
  OAuthContext, Token, Parser, strings, extract_roles, validate_audience, context_of,
  validate_claims, key_func, validate_jwt,
}
use gprxy.Jwt.Acceptance.{IsAcceptable, validate_claims-eq-ok_iff}
use gprxy.Jwt.Cache.{
  last_key, or_else, parse_key-encode, lookup-load_keys, get_public_key-fresh,
  get_public_key-withdrawn,
}
use gprxy.Jwt.Validation.{IsAuthentic, validate_jwt-IsAuthentic}

jwt : Unit {0}
unfolding last_key validate_jwt validate_claims validate_audience extract_roles strings key_func
    get_public_key fetch_jwks load_keys parse_key exponent_from new_validator decode encode
    encode_digit decode_digit digits_of pack lookup insert text_eq
jwt = tt

abbrev key : PublicKey
key = record { modulus = 197637; exponent = 65537 }

abbrev cached : Validator
cached = record {
  issuer = codes "https://idp/";
  audience = codes "api";
  jwks_url = codes "https://idp/keys";
  public_keys = (codes "k1", key) ∷ [];
  last_keys_fetch = unix (pos 0);
  keys_cache_ttl = 60 * minute;
}

abbrev claims : Claims
claims =
    (codes "iss", str (codes "https://idp/"))
    ∷ (codes "aud", arr (cons (str (codes "web")) (cons (str (codes "api")) nil)))
    ∷ (codes "email", str (codes "a@b"))
    ∷ (codes "sub", str (codes "u1"))
    ∷ (codes "exp", num (pos 1000))
    ∷ (codes "roles", arr (cons (str (codes "reader")) nil))
    ∷ []

abbrev token : Token
token = record { alg = codes "RS256"; kid = some (str (codes "k1")); claims = claims; valid = true }

-- A library that knows this token, and takes it under any key.
abbrev parser : Parser
parser = record { read = λ raw. some token; verified = λ raw k. some token }

abbrev jwk : Text → Jwk
jwk kid = record {
  kid = kid;
  kty = codes "RSA";
  use_ = codes "sig";
  n = encode (3 ∷ 4 ∷ 5 ∷ []);
  e = encode (1 ∷ 0 ∷ 1 ∷ []);
  alg = codes "RS256";
}

-- A run at the second `t`, where the server answers with these keys.
abbrev run : ℕ → List Jwk → Round
run t jwks = record {
  at_read = unix (pos t);
  others = λ v. v;
  at_lock = unix (pos t);
  reply = answer 200 (some jwks);
  at_fetch = unix (pos t);
}

abbrev context : OAuthContext
context = context_of claims

validate_jwt_test :
    validate_jwt parser (run 60 []) (unix (pos 60)) (codes "eyJ") cached ≡ (ok context, cached)
unfolding jwt
validate_jwt_test = refl

-- An expiry too large for `int64`, and one that wraps in `time.Unix`, are in the past.
abbrev endless : ℕ → Claims
endless n =
    (codes "iss", str (codes "https://idp/"))
    ∷ (codes "aud", str (codes "api"))
    ∷ (codes "email", str (codes "a@b"))
    ∷ (codes "sub", str (codes "u1"))
    ∷ (codes "exp", num (pos n))
    ∷ []

validate_claims_tests :
    (validate_claims cached claims (unix (pos 60)) ≡ ok context)
    × (validate_claims cached claims (unix (pos 1001)) ≡ err Error.token_expired)
    × (validate_claims cached (endless 10_000_000_000_000_000_000) (unix (pos 60))
        ≡ err Error.token_expired)
    × (validate_claims cached (endless 9_223_372_036_854_775_000) (unix (pos 60))
        ≡ err Error.token_expired)
    × (extract_roles claims ≡ codes "reader" ∷ [])
unfolding jwt
validate_claims_tests = (refl, refl, refl, refl, refl)

validate_jwt-IsAuthentic_example : IsAuthentic parser (unix (pos 60)) (codes "eyJ") cached context
validate_jwt-IsAuthentic_example =
    validate_jwt-IsAuthentic parser (run 60 []) (unix (pos 60)) (codes "eyJ") cached cached context
      validate_jwt_test

validate_claims-eq-ok_iff_example :
    (validate_claims cached claims (unix (pos 60)) ≡ ok context)
    ↔ (IsAcceptable cached claims (unix (pos 60)) × (context_of claims ≡ context))
validate_claims-eq-ok_iff_example = validate_claims-eq-ok_iff cached claims (unix (pos 60)) context

abbrev two_keys : Map Text PublicKey
two_keys = (codes "k1", key) ∷ (codes "k2", key) ∷ []

load_keys_test : load_keys (jwk (codes "k2") ∷ []) cached.public_keys ≡ (ok tt, two_keys)
unfolding jwt
load_keys_test = refl

lookup-load_keys_example :
    lookup (codes "k1") two_keys
    ≡ or_else
        (last_key (jwk (codes "k2") ∷ []) (codes "k1"))
        (lookup (codes "k1") cached.public_keys)
lookup-load_keys_example =
    lookup-load_keys (jwk (codes "k2") ∷ []) cached.public_keys two_keys (codes "k1") load_keys_test

parse_key-encode_example :
    parse_key (jwk (codes "k2"))
    ≡ ok (record {
      modulus = big_endian (3 ∷ 4 ∷ 5 ∷ []);
      exponent = big_endian (1 ∷ 0 ∷ 1 ∷ []) % 2 ^ 64;
    })
parse_key-encode_example =
    parse_key-encode (jwk (codes "k2")) (3 ∷ 4 ∷ 5 ∷ []) (1 ∷ 0 ∷ 1 ∷ []) (ground arith)
      (ground arith) refl refl

get_public_key-fresh_example : get_public_key (run 60 []) (codes "k1") cached ≡ (ok key, cached)
unfolding jwt
get_public_key-fresh_example = get_public_key-fresh (run 60 []) (codes "k1") cached key refl refl

get_public_key-withdrawn_example :
    get_public_key (run 9000 (jwk (codes "k2") ∷ [])) (codes "k1") cached
    ≡ (ok key, record cached { public_keys = two_keys; last_keys_fetch = unix (pos 9000) })
unfolding jwt
get_public_key-withdrawn_example =
    get_public_key-withdrawn (run 9000 (jwk (codes "k2") ∷ [])) (codes "k1") cached key
      (jwk (codes "k2") ∷ []) two_keys refl refl refl refl refl load_keys_test refl

abbrev failing : Round
failing = record {
  at_read = unix (pos 9000);
  others = λ v. v;
  at_lock = unix (pos 9000);
  reply = answer 503 none;
  at_fetch = unix (pos 9000);
}
