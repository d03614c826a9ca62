-- ===== src/Cli/Tokens.antt =====
-- internal/cli/loginStatus.go: what is read of a token. Nothing is verified here.
pub mod Reading
use gprxy.Common.{
  Option, none, some, List, [], ◌∷◌, Text, Text_eq, codes, lookup, split_all, Outcome, ok, err,
  bad_token_format, bad_base64, bad_json,
}
use gprxy.Base64.{decode}
use gprxy.Jwt.Values.{Json, Claims, str, arr}
use gprxy.Jwt.{strings}
use gprxy.Cli.{UserInfo}

abbrev pub claims_result : Option Claims → Outcome Claims
claims_result none = err bad_json
claims_result (some claims) = ok claims

abbrev pub payload_result : (Text → Option Claims) → Option Text → Outcome Claims
payload_result decode_claims none = err bad_base64
payload_result decode_claims (some payload) = claims_result (decode_claims payload)

abbrev pub claims_of_parts : (Text → Option Claims) → List Text → Outcome Claims
claims_of_parts decode_claims (header ∷ payload ∷ signature ∷ []) =
    payload_result decode_claims (decode payload)
claims_of_parts decode_claims _ = err bad_token_format

-- `decode_claims` is `json.Unmarshal` into a map.
unfoldable pub parse_access_token : (Text → Option Claims) → Text → Outcome Claims
unfolding decode
parse_access_token decode_claims token = claims_of_parts decode_claims (split_all token b'.')

abbrev pub string_of : Option Json → Text
string_of (some (str s)) = s
string_of _ = []

unfoldable pub get_string : Claims → Text → Text
get_string m key = string_of (lookup key m)

abbrev pub user_of : Outcome Claims → Outcome UserInfo
user_of (ok claims) = ok (record {
  sub = get_string claims (codes "sub");
  email = get_string claims (codes "email");
  name = get_string claims (codes "name");
  roles = [];
})
user_of (err e) = err e
user_of Outcome.panics = Outcome.panics
user_of Outcome.blocks = Outcome.blocks

unfoldable pub parse_id_token : (Text → Option Claims) → Text → Outcome UserInfo
unfolding decode get_string
parse_id_token decode_claims token = user_of (claims_of_parts decode_claims (split_all token b'.'))

abbrev pub role_array : Option Json → List Text
role_array (some (arr xs)) = strings xs
role_array _ = []

-- Only the claim "role" is read, and only as an array.
unfoldable pub extract_roles_from_claims : Claims → List Text
unfolding strings
extract_roles_from_claims claims = role_array (lookup (codes "role") claims)
