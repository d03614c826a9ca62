-- ===== src/Jwt.antt =====
-- internal/auth/jwt.go: `ValidateJWT` and the claims. The key cache is in Jwt/Keys.antt. Parsing and
-- verifying a token is the work of the library golang-jwt, and a parameter here.
pub mod Values
pub mod Keys
pub mod Acceptance
pub mod Cache
pub mod Validation
pub mod Ending
mod Tests
use gprxy.Common.{
  pos, ltb_ℤ, int64, add_ℕ, sub_ℕ, ℕ, Bool, true, false, ◌&&◌, ◌||◌, not, Option, none, some, List,
  [], ◌∷◌, ◌++◌, any, Text, codes, is_empty, Text_eq, ◌==◌, Map, lookup, if◌then◌else◌, ℤ, negsuc,
  unix, zero_time, after, Outcome, ok, err, Error, bad_method, no_key_id, key_unavailable,
  parse_failed, token_invalid, bad_issuer, no_audience, bad_audience, bad_audience_type, no_email,
  no_subject, token_expired,
}
use Values.{Json, Items, Claims, str, arr, num, nil, cons}
use Keys.{Validator, PublicKey, Round, get_public_key}

pub record OAuthContext : Type 0 where
  pub email : Text
  pub roles : List Text
  pub subject : Text
  pub service_account : Text
  pub expires_at : ℤ
  pub issued_at : ℤ

-- The loop over an array of a claim: its entries that are strings.
unfoldable pub strings : Items → List Text
strings nil = []
strings (cons (str s) xs) = s ∷ strings xs
strings (cons _ xs) = strings xs

abbrev pub roles_of : Option Json → List Text
roles_of (some (arr xs)) = strings xs
roles_of (some (str s)) = s ∷ []
roles_of _ = []

unfoldable pub extract_roles : Claims → List Text
unfolding strings
extract_roles claims =
    roles_of (lookup (codes "role") claims) ++ roles_of (lookup (codes "roles") claims)

-- The search through an array of audiences.
abbrev pub holds_string : Text → Items → Bool
holds_string s nil = false
holds_string s (cons (str t) xs) = t == s || holds_string s xs
holds_string s (cons _ xs) = holds_string s xs

abbrev pub audience_result : Text → Option Json → Outcome (Unit {0})
audience_result audience none = err no_audience
audience_result audience (some (str s)) = if s == audience then ok tt else err bad_audience
audience_result audience (some (arr xs)) =
    if holds_string audience xs then ok tt else err bad_audience
audience_result audience (some _) = err bad_audience_type

unfoldable pub validate_audience : Text → Claims → Outcome (Unit {0})
validate_audience audience claims = audience_result audience (lookup (codes "aud") claims)

-- A claim read by the assertion `.(string)`: "" if it is not one.
abbrev pub string_claim : Option Json → Text
string_claim (some (str s)) = s
string_claim _ = []

-- `int64` of a float64 without its fraction: out of range it is the least `int64`, as on amd64.
-- (On arm64 it is the greatest `int64` above the range, which `time.Unix` wraps into the past.)
abbrev pub int64_of_float : ℤ → ℤ
int64_of_float n =
    if ltb_ℤ n (negsuc 9223372036854775807) || ltb_ℤ (pos 9223372036854775807) n
    then negsuc 9223372036854775807
    else n

-- `time.Unix(sec, 0)` counts its seconds from the year 1, in an `int64` that wraps.
abbrev pub unix64 : ℤ → ℤ
unix64 sec = unix (sub_ℕ (int64 (add_ℕ sec 62135596800)) 62135596800)

-- A claim read by `.(float64)` as a moment: the zero time if it is not one.
abbrev pub time_claim : Option Json → ℤ
time_claim (some (num n)) = unix64 (int64_of_float n)
time_claim _ = zero_time

-- `claims["iss"]` is a string, and is the issuer.
abbrev pub is_string : Text → Option Json → Bool
is_string s (some (str t)) = t == s
is_string s _ = false

abbrev pub context_of : Claims → OAuthContext
context_of claims = record {
  email = string_claim (lookup (codes "email") claims);
  roles = extract_roles claims;
  subject = string_claim (lookup (codes "sub") claims);
  service_account = [];
  expires_at = time_claim (lookup (codes "exp") claims);
  issued_at = time_claim (lookup (codes "iat") claims);
}

abbrev pub after_audience : Outcome (Unit {0}) → Claims → ℤ → Outcome OAuthContext
after_audience (ok _) claims now =
    if is_empty (string_claim (lookup (codes "email") claims))
    then err no_email
    else if is_empty (string_claim (lookup (codes "sub") claims))
    then err no_subject
    else if after now (time_claim (lookup (codes "exp") claims))
    then err token_expired
    else ok (context_of claims)
after_audience (err e) claims now = err e
after_audience Outcome.panics claims now = Outcome.panics
after_audience Outcome.blocks claims now = Outcome.blocks

-- What `ValidateJWT` does with the claims of a token that was parsed and verified, at the time `now`.
unfoldable pub validate_claims : Validator → Claims → ℤ → Outcome OAuthContext
unfolding validate_audience extract_roles
validate_claims v claims now =
    if not (is_string v.issuer (lookup (codes "iss") claims))
    then err bad_issuer
    else after_audience (validate_audience v.audience claims) claims now

-- A token: its signing method, the entry "kid" of its header, and its claims.
pub record Token : Type 0 where
  pub alg : Text
  pub kid : Option Json
  pub claims : Claims
  pub valid : Bool

-- `jwt.Parse(raw, keyFunc, WithValidMethods(RS256))` calls `keyFunc` at most once. `read` is the
-- token that it hands over, and `verified` what it returns when `keyFunc` returned that key.
pub record Parser : Type 0 where
  pub read : Text → Option Token
  pub verified : Text → PublicKey → Option Token

abbrev pub with_key : Outcome PublicKey × Validator → Outcome PublicKey × Validator
with_key (ok key, v) = (ok key, v)
with_key (err e, v) = (err key_unavailable, v)
with_key (Outcome.panics, v) = (Outcome.panics, v)
with_key (Outcome.blocks, v) = (Outcome.blocks, v)

abbrev pub key_of : Round → Option Json → Validator → Outcome PublicKey × Validator
key_of round (some (str kid)) v = with_key (get_public_key round kid v)
key_of round _ v = (err no_key_id, v)

-- The closure that `ValidateJWT` hands to `jwt.Parse`.
unfoldable pub key_func : Round → Token → Validator → Outcome PublicKey × Validator
key_func round t v = if t.alg == codes "RS256" then key_of round t.kid v else (err bad_method, v)

module _ (parser : Parser) (round : Round) (now : ℤ) where
  abbrev pub checked_token : Option Token → Validator → Outcome OAuthContext
  checked_token none v = err parse_failed
  checked_token (some t) v = if t.valid then validate_claims v t.claims now else err token_invalid

  abbrev pub with_public_key :
      Text → Outcome PublicKey × Validator → Outcome OAuthContext × Validator
  with_public_key raw (ok key, v) = (checked_token (parser.verified raw key) v, v)
  with_public_key raw (err e, v) = (err parse_failed, v)
  with_public_key raw (Outcome.panics, v) = (Outcome.panics, v)
  with_public_key raw (Outcome.blocks, v) = (Outcome.blocks, v)

  abbrev pub with_token : Text → Option Token → Validator → Outcome OAuthContext × Validator
  with_token raw none v = (err parse_failed, v)
  with_token raw (some t) v = with_public_key raw (key_func round t v)

  unfoldable pub validate_jwt : Text → Validator → Outcome OAuthContext × Validator
  unfolding key_func validate_claims
  validate_jwt raw v = with_token raw (parser.read raw) v
