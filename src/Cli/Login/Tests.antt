-- ===== src/Cli/Login/Tests.antt =====
-- The login of internal/cli/login.go on small inputs, and the theorems at work.
use gprxy.Common.{
  ℕ, ◌≡◌, ◌⊎◌, refl, false, none, some, List, [], ◌∷◌, arith, Text, Text_eq, text_eq, codes, lookup,
  split_all, ok, err, blocks, timed_out,
}
use gprxy.Base64.{encode, decode, encode_digit, decode_digit, digits_of, pack}
use gprxy.Form.{
  form_encode, join_fields, by_key_onto, insert_pair, escape, escape_byte, is_unreserved, hex_digit,
  text_leb,
}
use gprxy.Jwt.{strings}
use gprxy.Cli.{UserInfo, SavedCreds, Url, answer, Shell, Disk}
use gprxy.Cli.Tokens.{parse_access_token, parse_id_token, get_string, extract_roles_from_claims}
use gprxy.Cli.Creds.{has_path, save_creds, load_creds, is_expired}
use gprxy.Cli.Refresh.{url_text, expiry, renewed, get_refresh_token, login_status}
use gprxy.Cli.Callback
use gprxy.Cli.Callback.{handler, Request, respond, try_code, Callback, returned}
use gprxy.Cli.Login.Channels
use gprxy.Cli.Login.Channels.{stopped, waiting, got, Channels, put_code, put_err, take_code}
use gprxy.Cli.Login.{
  generate_code_verifier, generate_code_challenge, build_auth_url, exchange_code_for_tokens,
  creds_from, auth_params, finish_login, login,
}
use gprxy.Cli.Login.Pkce.{HasBytes, IsVerifiable, build_auth_url-IsVerifiable}
use gprxy.Cli.Login.Effects.{IsLoggedIn}
use gprxy.Cli.Login.Session.{IsFresh, login-IsFresh, login-stalls}
use gprxy.Cli.Tests.{shell, disk}

cli : Unit {0}
unfolding handler get_refresh_token login_status load_creds save_creds has_path is_expired renewed
    url_text expiry parse_access_token parse_id_token extract_roles_from_claims get_string login
    finish_login build_auth_url exchange_code_for_tokens creds_from generate_code_challenge
    generate_code_verifier encode decode encode_digit decode_digit digits_of pack form_encode
    join_fields by_key_onto insert_pair escape escape_byte is_unreserved hex_digit text_leb lookup
    text_eq split_all strings
cli = tt

abbrev sha256 : Text → List ℕ
sha256 t = 1 ∷ 2 ∷ []

abbrev url : Url
url = record {
  stem = codes "https://AUTH0_TENANT/authorize";
  raw_query = form_encode (
      auth_params shell (generate_code_challenge sha256 (generate_code_verifier (7 ∷ [])))
        (generate_code_verifier (8 ∷ [])));
  fragment = [];
}

shell-HasBytes : HasBytes shell
shell-HasBytes = record {
  client_id_bytes = ground arith;
  callback_bytes = ground arith;
  audience_bytes = ground arith;
  connection_bytes = ground arith;
}

build_auth_url_test :
    build_auth_url shell
      (generate_code_challenge sha256 (generate_code_verifier (7 ∷ [])))
      (generate_code_verifier (8 ∷ []))
    ≡ ok url
unfolding build_auth_url form_encode
build_auth_url_test = refl

build_auth_url-IsVerifiable_example :
    IsVerifiable shell shell-HasBytes sha256
      (generate_code_verifier (7 ∷ []))
      (generate_code_verifier (8 ∷ []))
      (codes "c")
      url
build_auth_url-IsVerifiable_example =
    build_auth_url-IsVerifiable shell shell-HasBytes sha256 (7 ∷ []) (8 ∷ []) (codes "c") url
      (ground arith) build_auth_url_test

-- A codec that forgets, and a user who was never logged in.
abbrev new_shell : Shell
new_shell = record shell { encode_creds = λ creds. some []; decode_creds = λ bytes. none }

abbrev new_disk : Disk
new_disk = record disk { credentials = none }

abbrev state_token : Text
state_token = generate_code_verifier (8 ∷ [])

abbrev answered : Request
answered = record { code = codes "c"; state = state_token; error = []; error_description = [] }

-- The callback server takes one request, and its handler delivers the code.
abbrev served : Callback
served = record { phase = returned (ok (codes "c")); handlers = [] ∷ []; seen = answered ∷ [] }

served_run : gprxy.Cli.Callback.Reach state_token gprxy.Cli.Callback.begin served
unfolding cli
served_run =
    gprxy.Cli.Callback.next
      (gprxy.Cli.Callback.next
        (gprxy.Cli.Callback.next
          (gprxy.Cli.Callback.next gprxy.Cli.Callback.here
            (gprxy.Cli.Callback.select gprxy.Cli.Callback.begin refl))
          (gprxy.Cli.Callback.request
            (record gprxy.Cli.Callback.begin { phase = gprxy.Cli.Callback.waiting }) answered))
        (gprxy.Cli.Callback.write
          (record {
            phase = gprxy.Cli.Callback.waiting;
            handlers = (respond 200 ∷ try_code (codes "c") ∷ []) ∷ [];
            seen = answered ∷ [];
          })
          [] [] (try_code (codes "c") ∷ []) 200 refl))
      (gprxy.Cli.Callback.deliver_code
        (record {
          phase = gprxy.Cli.Callback.waiting;
          handlers = (try_code (codes "c") ∷ []) ∷ [];
          seen = answered ∷ [];
        })
        [] [] [] (codes "c") refl refl)

-- The goroutine puts the code, and the login takes it.
abbrev put : Channels
put = record { server = stopped; main = waiting; code_chan = codes "c" ∷ []; err_chan = [] }

abbrev taken : Channels
taken = record { server = stopped; main = got (codes "c"); code_chan = []; err_chan = [] }

taken_run : gprxy.Cli.Login.Channels.Reach (ok (codes "c")) gprxy.Cli.Login.Channels.begin taken
taken_run =
    gprxy.Cli.Login.Channels.next
      (gprxy.Cli.Login.Channels.next gprxy.Cli.Login.Channels.here
        (put_code gprxy.Cli.Login.Channels.begin (codes "c") refl refl refl))
      (take_code put (codes "c") [] refl refl)

abbrev logged_in : Disk
logged_in = record disk { credentials = some [] }

login_test :
    login new_shell sha256 (7 ∷ []) (8 ∷ []) (got (codes "c")) new_disk ≡ (ok tt, logged_in)
unfolding cli
login_test = refl

login-IsFresh_example :
    IsLoggedIn new_shell new_disk logged_in
    ⊎ IsFresh new_shell sha256 (7 ∷ []) (8 ∷ []) served logged_in
login-IsFresh_example =
    login-IsFresh new_shell sha256 (7 ∷ []) (8 ∷ []) served (ok (codes "c")) taken new_disk
      logged_in served_run refl taken_run login_test

-- The user does not come back in time.
abbrev late : Callback
late = record gprxy.Cli.Callback.begin { phase = returned (err timed_out) }

late_run : gprxy.Cli.Callback.Reach state_token gprxy.Cli.Callback.begin late
late_run =
    gprxy.Cli.Callback.next
      (gprxy.Cli.Callback.next gprxy.Cli.Callback.here
        (gprxy.Cli.Callback.select gprxy.Cli.Callback.begin refl))
      (gprxy.Cli.Callback.time_out
        (record gprxy.Cli.Callback.begin { phase = gprxy.Cli.Callback.waiting }) refl)

abbrev stuck : Channels
stuck = record { server = stopped; main = waiting; code_chan = []; err_chan = timed_out ∷ [] }

stuck_run : gprxy.Cli.Login.Channels.Reach (err timed_out) gprxy.Cli.Login.Channels.begin stuck
stuck_run =
    gprxy.Cli.Login.Channels.next gprxy.Cli.Login.Channels.here
      (put_err gprxy.Cli.Login.Channels.begin timed_out refl refl refl)

not_logged_in : (login_status new_shell new_disk).0 ≡ ok false
unfolding cli
not_logged_in = refl

login-stalls_example :
    ((login new_shell sha256 (7 ∷ []) (8 ∷ []) waiting new_disk).0 ≡ blocks)
    × (stopped ≡ stopped
        → (c' : Channels) → gprxy.Cli.Login.Channels.Step (err timed_out) stuck c'
        → ⊥)
unfolding build_auth_url
login-stalls_example =
    login-stalls new_shell sha256 (7 ∷ []) (8 ∷ []) late timed_out stuck new_disk url late_run refl
      stuck_run not_logged_in build_auth_url_test
