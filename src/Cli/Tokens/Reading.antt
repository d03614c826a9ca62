-- ===== src/Cli/Tokens/Reading.antt =====
-- What the parsers of a token read, and how the roles compare with those of the proxy.
use gprxy.Common.{
  split_all-one, split_all-append, ◌≡◌, refl, Option, none, some, List, [], ◌∷◌, ◌++◌, arith, Text,
  Text_eq, codes, lookup, All, NoChar,
}
use gprxy.Base64.{encode}
use gprxy.Base64.RoundTrip.{AllBytes, IsUrlSafe, decode-encode, encode_lem}
use gprxy.Jwt.Values.{Json, Claims, null, bool, num, str, arr, obj}
use gprxy.Jwt.{roles_of, extract_roles}
use gprxy.Cli.Tokens.{claims_result, parse_access_token, role_array, extract_roles_from_claims}

IsUrlSafe-NoChar : (s : Text) → All IsUrlSafe s → NoChar b'.' s
IsUrlSafe-NoChar [] h = tt
IsUrlSafe-NoChar (c ∷ s) (p, h) = (λ e. ground arith, IsUrlSafe-NoChar s h)

-- The claims of a token are what the JSON decoder makes of its payload, which the token holds
-- between its two dots in base64, whatever the header and the signature are.
pub parse_access_token-encode :
    (decode_claims : Text → Option Claims) (header payload signature : Text)
    → NoChar b'.' header
    → AllBytes payload
    → NoChar b'.' signature
    → parse_access_token decode_claims (header ++ b'.' ∷ (encode payload ++ b'.' ∷ signature))
      ≡ claims_result (decode_claims payload)
unfolding parse_access_token
parse_access_token-encode decode_claims header payload signature h b g =
    rw
      (
        split_all-append b'.' header (encode payload ++ b'.' ∷ signature) h,
        split_all-append b'.' (encode payload) signature
            (IsUrlSafe-NoChar (encode payload) (encode_lem payload).1),
        split_all-one b'.' signature g,
        decode-encode payload b,
      )
      refl

of_role :
    (o p : Option Json) → (rest : List Text) × (roles_of o ++ roles_of p ≡ role_array o ++ rest)
of_role (some (arr xs)) p = (roles_of p, refl)
of_role (some (str s)) p = (s ∷ roles_of p, refl)
of_role (some null) p = (roles_of p, refl)
of_role (some (bool b)) p = (roles_of p, refl)
of_role (some (num n)) p = (roles_of p, refl)
of_role (some (obj fs)) p = (roles_of p, refl)
of_role none p = (roles_of p, refl)

-- The roles that the client shows are the first of the roles that the proxy maps. It may show
-- fewer: the proxy also takes a claim "role" that is a string, and the claim "roles".
pub extract_roles-extract_roles_from_claims :
    (claims : Claims)
    → (rest : List Text) × (extract_roles claims ≡ extract_roles_from_claims claims ++ rest)
unfolding extract_roles extract_roles_from_claims
extract_roles-extract_roles_from_claims claims =
    of_role (lookup (codes "role") claims) (lookup (codes "roles") claims)
