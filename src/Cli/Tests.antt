-- ===== src/Cli/Tests.antt =====
-- internal/cli on small inputs, and the theorems at work.
use gprxy.Common.{
  ◌≡◌, refl, true, false, Option, none, some, List, [], ◌∷◌, ◌++◌, arith, Text, Text_eq, text_eq,
  codes, lookup, split_all, ℤ, pos, unix, has_prefix, lower_char, arrives, lost, send, open_sink,
  ok,
}
use gprxy.Base64.{encode, decode, encode_digit, decode_digit, digits_of, pack}
use gprxy.Form.{
  form_encode, join_fields, by_key_onto, insert_pair, escape, escape_byte, is_unreserved, hex_digit,
  text_leb,
}
use gprxy.Jwt.{strings}
use gprxy.Cli.{UserInfo, SavedCreds, answer, Shell, Disk}
use gprxy.Cli.Tokens.{
  claims_result, parse_access_token, parse_id_token, get_string, extract_roles_from_claims,
}
use gprxy.Cli.Tokens.Reading.{parse_access_token-encode}
use gprxy.Cli.Creds.{has_path, save_creds, load_creds, is_expired}
use gprxy.Cli.Refresh.{url_text, expiry, renewed, get_refresh_token, login_status}
use gprxy.Cli.Callback.{handler}
use gprxy.Cli.Browser.{Platform, windows, contains, is_wsl, open_browser}
use gprxy.Cli.Login.{
  generate_code_verifier, generate_code_challenge, build_auth_url, exchange_code_for_tokens,
  creds_from, finish_login, login,
}
use gprxy.Protocol.{startup_message, password_message}
use gprxy.Tls.{plain}
use gprxy.Cli.Refresh.{get_creds}
use gprxy.Cli.Connect.{ConnectionConfig, Net, Run, startup_parameters, connect}
use gprxy.Cli.Connect.Disclosure.{Discloses, Alike, connect-Discloses, connect-plain}

cli : Unit {0}
unfolding handler get_refresh_token login_status load_creds save_creds has_path is_expired renewed
    url_text expiry parse_access_token parse_id_token extract_roles_from_claims get_string login
    finish_login build_auth_url exchange_code_for_tokens creds_from generate_code_challenge
    generate_code_verifier encode decode encode_digit decode_digit digits_of pack form_encode
    join_fields by_key_onto insert_pair escape escape_byte is_unreserved hex_digit text_leb lookup
    text_eq split_all strings
cli = tt

abbrev user : UserInfo
user = record { sub = []; email = []; name = []; roles = [] }

abbrev creds_with : Text → Text → ℤ → ℤ → SavedCreds
creds_with access refresh expires issued = record {
  access_token = access;
  refresh_token = refresh;
  id_token = [];
  expires_at = expires;
  issued_at = issued;
  user_info = user;
}

-- A codec for credentials of this shape only.
abbrev encoded : Text → Text → Text → ℤ → ℤ → Text → Text → Text → List Text → Option Text
encoded (a ∷ []) [] [] (pos e) (pos i) [] [] [] [] = some (a ∷ e ∷ i ∷ [])
encoded access refresh id expires issued sub email name roles = none

abbrev encode_creds : SavedCreds → Option Text
encode_creds c =
    encoded c.access_token c.refresh_token c.id_token c.expires_at c.issued_at c.user_info.sub
      c.user_info.email c.user_info.name c.user_info.roles

-- The empty file stands for credentials that have expired.
abbrev decode_creds : Text → Option SavedCreds
decode_creds [] = some (creds_with (codes "o") (codes "r") (pos 0) (pos 0))
decode_creds (a ∷ e ∷ i ∷ []) = some (creds_with (a ∷ []) [] (pos e) (pos i))
decode_creds _ = none

-- Each variable has its name as its value, and the provider grants an access token alone.
abbrev pub shell : Shell
shell = record {
  getenv = λ name. name;
  parse_url = λ text. some (record { stem = text; raw_query = []; fragment = [] });
  post = λ url form. answer 200 true [];
  encode_creds = encode_creds;
  decode_creds = decode_creds;
  decode_tokens = λ body. some (record {
    access_token = codes "n";
    refresh_token = [];
    id_token = [];
    token_type = codes "Bearer";
    expires_in = pos 60;
  });
  decode_claims = λ payload. none;
  checked_at = pos 0;
  granted_at = pos 0;
  issued_at = pos 0;
}

abbrev pub disk : Disk
disk = record {
  has_home = true;
  can_mkdir = true;
  can_read = true;
  can_write = true;
  torn = none;
  credentials = some [];
}

abbrev new_creds : SavedCreds
new_creds = creds_with (codes "n") [] (unix (pos 60)) (pos 0)

abbrev after_refresh : Disk
after_refresh = record disk { credentials = some (b'n' ∷ 60_000_000_000 ∷ 0 ∷ []) }

abbrev payload : Text
payload = codes "{}"

parse_access_token-encode_example :
    parse_access_token (λ t. some []) (codes "h" ++ b'.' ∷ (encode payload ++ b'.' ∷ codes "s"))
    ≡ claims_result (some [])
parse_access_token-encode_example =
    parse_access_token-encode (λ t. some []) (codes "h") payload (codes "s") (ground arith)
      (ground arith) (ground arith)

-- The empty argument, meant as the title behind "start", comes before "start".
open_browser_tests :
    (open_browser windows false (codes "u")
      ≡ (codes "rundll32", codes "url.dll,FileProtocolHandler" ∷ [] ∷ codes "u" ∷ []))
    × (open_browser Platform.other (is_wsl (λ c. c) (some (codes "5.1-Microsoft"))) (codes "u")
        ≡ (codes "cmd.exe", codes "/c" ∷ [] ∷ codes "start" ∷ codes "u" ∷ []))
unfolding open_browser is_wsl contains has_prefix lower_char
open_browser_tests = (refl, refl)

abbrev target : ConnectionConfig
target = record { db_name = codes "app"; db_host = codes "db"; db_port = pos 7777 }

-- No host resolves, so that `Validate` fails.
abbrev offline : Net
offline = record { is_ip = λ host. false; lookup_host = λ host. none; dials = λ host port. false }

abbrev online : Net
online = record { is_ip = λ host. true; lookup_host = λ host. none; dials = λ host port. true }

abbrev before : Run
before = record {
  validated = none;
  disk = disk;
  line = record { wire = open_sink; responses = arrives b'N' ∷ []; handshakes = false };
  channel = none;
  sent = open_sink;
  replies = lost ∷ [];
}

get_creds_test : get_creds shell disk ≡ (ok new_creds, after_refresh)
unfolding get_creds cli
get_creds_test = refl

connect-Discloses_example :
    Discloses shell target before (connect shell offline true target before).1
    × Alike shell target
        (connect shell offline true target before)
        (connect shell online true target before)
connect-Discloses_example = connect-Discloses shell target offline online true before

connect-plain_example :
    let after = (connect shell offline true target before).1 in
    (after.channel ≡ some plain)
    × (after.sent
        ≡ (send
            (password_message (codes "n"))
            (send (startup_message (startup_parameters target new_creds)) open_sink).1).1)
unfolding send
connect-plain_example =
    connect-plain shell target offline new_creds after_refresh before [] lost [] get_creds_test refl
      refl refl
