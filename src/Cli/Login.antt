-- ===== src/Cli/Login.antt =====
-- internal/cli/login.go: the login by PKCE. What the random source fills the buffers with, SHA-256
-- and where the receive of the code comes to are inputs.
pub mod Channels
pub mod Pkce
pub mod Effects
pub mod Session
mod Tests
use gprxy.Common.{
  ℕ, Bool, true, false, ◌||◌, Option, none, some, List, [], ◌∷◌, ◌++◌, Text, codes, is_empty,
  nat_eq, ℤ, Outcome, ok, err, panics, blocks, Act, continue, ◌>>=◌, Error, not_configured,
  request_failed, fetch_failed, bad_status, bad_json, if◌then◌else◌,
}
use gprxy.Base64.{encode}
use gprxy.Form.{Pairs, form_encode}
use gprxy.Jwt.Values.{Claims}
use gprxy.Cli.{
  UserInfo, SavedCreds, TokenResponse, Url, Reply, no_request, no_answer, answer, Shell, Disk,
}
use Channels.{Main, received}
use gprxy.Cli.Tokens.{parse_access_token, parse_id_token, extract_roles_from_claims}
use gprxy.Cli.Creds.{save_creds}
use gprxy.Cli.Refresh.{url_text, expiry, login_status}

-- An error of the random source is logged only, and the buffer is encoded as it is then.
unfoldable pub generate_code_verifier : List ℕ → Text
unfolding encode
generate_code_verifier buf = encode buf

unfoldable pub generate_code_challenge : (Text → List ℕ) → Text → Text
unfolding encode
generate_code_challenge sha256 code_verifier = encode (sha256 code_verifier)

module _ (sh : Shell) where
  abbrev pub tenant : Text
  tenant = sh.getenv (codes "AUTH0_TENANT")

  abbrev pub client_id : Text
  client_id = sh.getenv (codes "AUTH0_NATIVE_CLIENT_ID")

  abbrev pub auth_params : Text → Text → Pairs
  auth_params code_challenge state =
      (codes "response_type", codes "code")
      ∷ (codes "code_challenge", code_challenge)
      ∷ (codes "code_challenge_method", codes "S256")
      ∷ (codes "client_id", client_id)
      ∷ (codes "redirect_uri", sh.getenv (codes "CALLBACK_URL"))
      ∷ (codes "scope", codes "openid profile email offline_access groups")
      ∷ (codes "audience", sh.getenv (codes "AUDIENCE"))
      ∷ (codes "state", state)
      ∷ (codes "connection", sh.getenv (codes "CONNECTION_NAME"))
      ∷ []

  -- `RawQuery` of a nil URL panics.
  abbrev pub with_query : Text → Option Url → Outcome Url
  with_query query none = panics
  with_query query (some u) = ok (record u { raw_query = query })

  -- The URL before `String`. The error is `logger.Fatal`, which ends the program; a missing
  -- callback URL or audience is logged only.
  unfoldable pub build_auth_url : Text → Text → Outcome Url
  unfolding form_encode
  build_auth_url code_challenge state =
      if is_empty tenant || is_empty client_id
      then err not_configured
      else with_query (form_encode (auth_params code_challenge state))
          (sh.parse_url (codes "https://" ++ (tenant ++ codes "/authorize")))

  abbrev pub code_params : Text → Text → Pairs
  code_params code code_verifier =
      (codes "grant_type", codes "authorization_code")
      ∷ (codes "client_id", client_id)
      ∷ (codes "code", code)
      ∷ (codes "redirect_uri", sh.getenv (codes "CALLBACK_URL"))
      ∷ (codes "code_verifier", code_verifier)
      ∷ []

  abbrev pub tokens_of : Option TokenResponse → Outcome TokenResponse
  tokens_of none = err bad_json
  tokens_of (some tokens) = ok tokens

  -- A body that is read in part is decoded all the same.
  abbrev pub token_reply : Reply → Outcome TokenResponse
  token_reply no_request = err request_failed
  token_reply no_answer = err fetch_failed
  token_reply (answer status whole body) =
      if nat_eq status 200 then tokens_of (sh.decode_tokens body) else err (bad_status status)

  unfoldable pub exchange_code_for_tokens : Text → Text → Outcome TokenResponse
  unfolding form_encode
  exchange_code_for_tokens code code_verifier =
      if is_empty tenant || is_empty client_id
      then err not_configured
      else token_reply (
          sh.post (codes "https://" ++ (tenant ++ codes "/oauth/token"))
            (form_encode (code_params code code_verifier)))

  -- The placeholders are as the source spells them.
  abbrev pub user_or_unknown : Outcome UserInfo → UserInfo
  user_or_unknown (ok user) = user
  user_or_unknown _ = record {
    sub = [];
    email = codes "unkown";
    name = codes "unknown";
    roles = [];
  }

  abbrev pub with_roles : Outcome Claims → UserInfo → UserInfo
  with_roles (ok claims) user = record user { roles = extract_roles_from_claims claims }
  with_roles _ user = user

  unfoldable pub creds_from : TokenResponse → SavedCreds
  unfolding expiry parse_access_token parse_id_token extract_roles_from_claims
  creds_from tokens = record {
    access_token = tokens.access_token;
    refresh_token = tokens.refresh_token;
    id_token = tokens.id_token;
    expires_at = expiry sh.granted_at tokens.expires_in;
    issued_at = sh.issued_at;
    user_info =
        with_roles (parse_access_token sh.decode_claims tokens.access_token)
          (user_or_unknown (parse_id_token sh.decode_claims tokens.id_token));
  }

  abbrev pub save_tokens : TokenResponse → Act Disk (Unit {0})
  save_tokens tokens d = save_creds sh (creds_from tokens) d

  -- The flow after the URL was shown. `main` says where the receive of the code comes to; what runs
  -- beside it is in Login/Channels.
  unfoldable pub finish_login : Main → Text → Act Disk (Unit {0})
  unfolding exchange_code_for_tokens creds_from save_creds
  finish_login main code_verifier d =
      continue (received main)
        (λ code. λ d₁.
          continue (exchange_code_for_tokens code code_verifier) (λ tokens. save_tokens tokens) d₁)
        d

  module _ (sha256 : Text → List ℕ) (verifier_buf state_buf : List ℕ) (main : Main) where
    abbrev pub code_verifier : Text
    code_verifier = generate_code_verifier verifier_buf

    abbrev pub auth_url : Outcome Url
    auth_url =
        build_auth_url (generate_code_challenge sha256 code_verifier)
          (generate_code_verifier state_buf)

    abbrev pub unless_logged_in : Bool → Act Disk (Unit {0})
    unless_logged_in true d = (ok tt, d)
    unless_logged_in false d = continue auth_url (λ u. finish_login main code_verifier) d

    unfoldable pub login : Act Disk (Unit {0})
    unfolding login_status build_auth_url finish_login
    login d = continue (login_status sh d).0 unless_logged_in (login_status sh d).1
