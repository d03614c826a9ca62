-- ===== src/Auth/Tests.antt =====
-- internal/auth/authenticator.go on the login of a token and on that of a password.
use gprxy.Common.{
  ◌++◌, ℕ, ◌*◌, ◌≡◌, ◌⊎◌, refl, true, none, some, List, [], ◌∷◌, Text, Text_eq, text_eq, codes,
  has_prefix, count_char, lookup, insert, unix, pos, minute, Event, arrives, send, open_sink,
  Outcome, ok, err, told_client, trim_space, trim_left, trim_right, is_space, lower_char,
}
use gprxy.Protocol.{
  BackendKeyData, BackendMessage, FrontendMessage, message, startup_message, password_message,
  authentication_sasl, authentication_sasl_continue, authentication_sasl_final,
  sasl_initial_response, sasl_response, authentication_ok, authentication_md5_password,
  parameter_status, backend_key_data, ready_for_query, sync,
}
use gprxy.Roles.{RoleMapper, first_match, map_role, handle_no_roles}
use gprxy.Jwt.Values.{Claims, str, num}
use gprxy.Jwt.Keys.{Validator, Reply, Round, get_public_key, fetch_jwks, load_keys}
use gprxy.Jwt.{
  Token, Parser, strings, extract_roles, validate_audience, validate_claims, key_func, validate_jwt,
}
use gprxy.Auth.Backend.{Scram, Session, tell, reply, auth_step, auth_loop}
use gprxy.Auth.Handshake.{IsHandshake, auth_loop-IsHandshake}
use gprxy.Auth.Replies.{Adds, auth_loop-Adds}
use gprxy.Auth.Success.{IsAdmitted, authenticate_user-IsAdmitted}
use gprxy.Auth.Speaking.{begin}
use gprxy.Auth.Admission.{LogsIn, authenticate_user-LogsIn}
use gprxy.Auth.{
  Attempt, send_error_to_client, refuse, request_password, is_jwt, Login, resolve, with_backend,
  start_backend, authenticate_user,
}

auth : Unit {0}
unfolding authenticate_user start_backend with_backend resolve is_jwt request_password refuse
    send_error_to_client auth_loop auth_step tell reply send map_role first_match handle_no_roles
    validate_jwt validate_claims validate_audience extract_roles strings key_func get_public_key
    fetch_jwks load_keys lookup insert text_eq has_prefix count_char trim_space trim_left trim_right
    is_space lower_char
auth = tt

-- A SCRAM library that responds with the credentials and the payload, a digest that is its argument, no letter above ASCII.
abbrev scram : Scram Text
scram = record { new_client = λ u p. some (u ++ p); step = λ c t. some (c ++ t, c) }

abbrev md5_hex : Text → Text
md5_hex t = t

abbrev wide : ℕ → ℕ
wide c = c

abbrev cached : Validator
cached = record {
  issuer = codes "idp";
  audience = codes "api";
  jwks_url = codes "https://idp/keys";
  public_keys = (codes "k1", record { modulus = 15; exponent = 3 }) ∷ [];
  last_keys_fetch = unix (pos 0);
  keys_cache_ttl = 60 * minute;
}

abbrev claims : Claims
claims =
    (codes "iss", str (codes "idp"))
    ∷ (codes "aud", str (codes "api"))
    ∷ (codes "email", str (codes "a@b"))
    ∷ (codes "sub", str (codes "u1"))
    ∷ (codes "exp", num (pos 1000))
    ∷ (codes "role", str (codes "Reader"))
    ∷ []

abbrev token : Token
token = record { alg = codes "RS256"; kid = some (str (codes "k1")); claims = claims; valid = true }

abbrev parser : Parser
parser = record { read = λ raw. some token; verified = λ raw k. some token }

abbrev mapper : RoleMapper
mapper = record {
  role_to_account =
      (
        codes "reader",
        record { username = codes "svc_r"; password = codes "pw_r"; role = codes "reader" },
      )
      ∷ [];
  default_role = [];
}

abbrev round : Round
round = record {
  at_read = unix (pos 60);
  others = λ v. v;
  at_lock = unix (pos 60);
  reply = Reply.no_answer;
  at_fetch = unix (pos 60);
}

abbrev key : BackendKeyData
key = record { process_id = 5; secret_key = 9 }

abbrev steps : List BackendMessage
steps =
    authentication_md5_password (codes "salt")
    ∷ authentication_ok
    ∷ parameter_status (codes "TimeZone") (codes "UTC")
    ∷ backend_key_data key
    ∷ []

abbrev script : List (Event BackendMessage)
script =
    arrives (authentication_md5_password (codes "salt"))
    ∷ arrives authentication_ok
    ∷ arrives (parameter_status (codes "TimeZone") (codes "UTC"))
    ∷ arrives (backend_key_data key)
    ∷ arrives (ready_for_query b'I')
    ∷ []

abbrev asking : FrontendMessage → Attempt
asking m = record {
  inbox = arrives m ∷ [];
  client = open_sink;
  backend = open_sink;
  parameters = (codes "user", codes "ann") ∷ (codes "database", codes "app") ∷ [];
  validator = cached;
}

abbrev run : FrontendMessage → Outcome BackendKeyData × Attempt
run m =
    authenticate_user scram md5_hex wide parser mapper round (unix (pos 60)) true script
      (codes "ann") (asking m)

-- A token logs in as its service account, another password as the client's own user, and a message
-- that holds no password is refused; PostgreSQL is sent the credentials of the login.
authenticate_user_tests :
    ((run (password_message (codes "eyJ.b.c"))).0 ≡ ok key)
    × ((run (password_message (codes "eyJ.b.c"))).1.backend.sent
        ≡ startup_message ((codes "user", codes "svc_r") ∷ (codes "database", codes "app") ∷ [])
          ∷ password_message (codes "md5pw_rsvc_rsalt")
          ∷ [])
    × ((run (password_message (codes "secret"))).1.backend.sent
        ≡ startup_message ((codes "user", codes "ann") ∷ (codes "database", codes "app") ∷ [])
          ∷ password_message (codes "md5secretannsalt")
          ∷ [])
    × ((run sync).0 ≡ err (told_client (codes "Authentication failed")))
unfolding auth
authenticate_user_tests = (refl, refl, refl, refl)

abbrev admitted : Attempt
admitted = (run (password_message (codes "eyJ.b.c"))).1

run_test : run (password_message (codes "eyJ.b.c")) ≡ (ok key, admitted)
unfolding auth
run_test = refl

authenticate_user-IsAdmitted_example :
    (true ≡ true)
    × IsAdmitted scram md5_hex wide parser mapper round
        (unix (pos 60))
        script
        (codes "ann")
        (asking (password_message (codes "eyJ.b.c")))
        admitted
        key
authenticate_user-IsAdmitted_example =
    authenticate_user-IsAdmitted scram md5_hex wide parser mapper round (unix (pos 60)) true script
      (codes "ann") (asking (password_message (codes "eyJ.b.c"))) admitted key run_test

-- PostgreSQL asks for SCRAM.
abbrev sasl_script : List (Event BackendMessage)
sasl_script =
    arrives (authentication_sasl (codes "SCRAM-SHA-256" ∷ []))
    ∷ arrives (authentication_sasl_continue (codes "+n"))
    ∷ arrives (authentication_sasl_final (codes "v"))
    ∷ arrives authentication_ok
    ∷ arrives (backend_key_data key)
    ∷ arrives (ready_for_query b'I')
    ∷ []

abbrev sasl_run : Outcome BackendKeyData × Attempt
sasl_run =
    authenticate_user scram md5_hex wide parser mapper round (unix (pos 60)) true sasl_script
      (codes "ann") (asking (password_message (codes "eyJ.b.c")))

sasl_tests :
    (sasl_run.0 ≡ ok key)
    × (sasl_run.1.backend.sent
        ≡ startup_message ((codes "user", codes "svc_r") ∷ (codes "database", codes "app") ∷ [])
          ∷ sasl_initial_response (codes "SCRAM-SHA-256") (codes "svc_rpw_r")
          ∷ sasl_response (codes "svc_rpw_r+n")
          ∷ [])
unfolding auth
sasl_tests = (refl, refl)

authenticate_user-LogsIn_example :
    (sasl_run.1.backend.sent ≡ [])
    ⊎ LogsIn scram md5_hex wide parser mapper round
        (unix (pos 60))
        sasl_script
        (codes "ann")
        (asking (password_message (codes "eyJ.b.c")))
        sasl_run.1
authenticate_user-LogsIn_example =
    authenticate_user-LogsIn scram md5_hex wide parser mapper round (unix (pos 60)) sasl_script
      (codes "ann") (asking (password_message (codes "eyJ.b.c"))) true

abbrev login : Login
login = record { username = codes "svc_r"; secret = codes "pw_r" }

abbrev opened : Session Text
opened = begin scram md5_hex login (asking sync)

abbrev ended : Session Text
ended = record {
  client = record {
    sent =
        message authentication_ok
        ∷ message (parameter_status (codes "TimeZone") (codes "UTC"))
        ∷ [];
    accepts = λ n. true;
    tries = 2;
  };
  backend = record {
    sent = password_message (codes "md5pw_rsvc_rsalt") ∷ [];
    accepts = λ n. true;
    tries = 1;
  };
  conversation = none;
  key_data = some key;
}

auth_loop_test :
    auth_loop scram md5_hex (codes "svc_r") (codes "pw_r") script opened ≡ (ok tt, ended)
unfolding auth
auth_loop_test = refl

auth_loop-IsHandshake_example : IsHandshake script opened ended
auth_loop-IsHandshake_example =
    auth_loop-IsHandshake scram md5_hex (codes "svc_r") (codes "pw_r") script opened ended
      auth_loop_test

auth_loop-Adds_example :
    Adds scram md5_hex
      (codes "svc_r")
      (codes "pw_r")
      sasl_script
      opened
      (auth_loop scram md5_hex (codes "svc_r") (codes "pw_r") sasl_script opened).1
auth_loop-Adds_example =
    auth_loop-Adds scram md5_hex (codes "svc_r") (codes "pw_r") sasl_script opened
