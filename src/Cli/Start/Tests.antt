-- ===== src/Cli/Start/Tests.antt =====
-- `gprxy start` in one environment, and a token of its tenant.
use gprxy.Common.{
  ◌≡◌, refl, true, none, some, List, [], ◌∷◌, Text, Text_eq, text_eq, codes, lookup, pos,
  has_prefix, trim_prefix, split_two, trim_left, trim_right, trim_space, is_space, lower_char,
  insert, Outcome, ok,
}
use gprxy.Jwt.Values.{Claims, str, num}
use gprxy.Jwt.{context_of, validate_claims, validate_audience, extract_roles, strings}
use gprxy.Jwt.Keys.{Validator, new_validator}
use gprxy.Jwt.Acceptance.{InClaim}
use gprxy.Roles.{new_role_mapper, load_from_environment, load_loop, parse_mapping}
use gprxy.Config.{load}
use gprxy.Tls.{load as load_tls}
use gprxy.Server.{Server, new_server}
use gprxy.Cli.Start.{Globals, initialize_auth, start_proxy_server}
use gprxy.Cli.Start.Composition.{validate_claims-issued}

abbrev nobody : Globals
nobody = record { jwt_validator = none; role_mapper = none }

abbrev environ : List Text
environ = codes "ROLE_MAPPING_reader=svc:pw" ∷ []

abbrev validator : Validator
validator =
    new_validator (codes "https://AUTH0_TENANT/") (codes "AUDIENCE")
      (codes "https://AUTH0_TENANT/.well-known/jwks.json")

abbrev proxy : Outcome Server × Globals
proxy = start_proxy_server (λ c. c) (λ name. name) environ (λ cert key. some 1) true nobody

start : Unit {0}
unfolding start_proxy_server initialize_auth load load_tls new_server new_validator new_role_mapper
    load_from_environment load_loop parse_mapping has_prefix trim_prefix split_two trim_space
    trim_left trim_right is_space lower_char insert validate_claims validate_audience extract_roles
    strings lookup text_eq
start = tt

abbrev claims : Claims
claims =
    (codes "iss", str (codes "https://AUTH0_TENANT/"))
    ∷ (codes "aud", str (codes "AUDIENCE"))
    ∷ (codes "email", str (codes "a@b"))
    ∷ (codes "sub", str (codes "u"))
    ∷ (codes "exp", num (pos 9))
    ∷ []

abbrev server : Server
server = record {
  config = record {
    proxy_host = codes "PROXY_HOST";
    proxy_port = codes "PROXY_PORT";
    db_host = codes "DB_HOST";
    service_user = codes "GPRXY_USER";
    service_pass = codes "GPRXY_PASS";
  };
  has_tls = true;
  active_connections = [];
}

proxy_test : proxy ≡ (ok server, proxy.1)
unfolding start
proxy_test = refl

validate_claims-issued_example :
    (lookup (codes "iss") claims ≡ some (str (codes "https://AUTH0_TENANT/")))
    × InClaim (codes "AUDIENCE") (lookup (codes "aud") claims)
unfolding start
validate_claims-issued_example =
    validate_claims-issued (λ c. c) (λ name. name) environ (λ cert key. some 1) true nobody proxy.1
      server validator claims (pos 0) (context_of claims) proxy_test refl refl
