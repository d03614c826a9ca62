-- ===== src/Cli/Refresh.antt =====
-- internal/cli/loginStatus.go: `getRefreshToken` and `loginStatus`; and `getCreds` of connect.go.
pub mod Renewal
pub mod Rotation
use gprxy.Common.{
  ℕ, ◌*◌, Bool, true, false, ◌||◌, Option, none, some, List, [], ◌∷◌, ◌++◌, Text, codes, is_empty,
  nat_eq, ℤ, ◌+ℤ◌, int64, scale, second, minute, until_lt, Outcome, ok, err, panics, blocks, Error,
  no_refresh_token, not_configured, request_failed, fetch_failed, receive_failed, bad_status,
  bad_json, if◌then◌else◌,
}
use gprxy.Jwt.Values.{Claims}
use gprxy.Form.{form_encode}
use gprxy.Cli.{
  UserInfo, SavedCreds, TokenResponse, Url, Reply, no_request, no_answer, answer, Shell, Disk,
}
use gprxy.Cli.Tokens.{parse_access_token, extract_roles_from_claims}
use gprxy.Cli.Creds.{save_creds, load_creds, is_expired}

-- `String` of a URL.
unfoldable pub url_text : Url → Text
url_text u =
    u.stem
    ++ ((if is_empty u.raw_query then [] else b'?' ∷ u.raw_query)
        ++ (if is_empty u.fragment then [] else b'#' ∷ u.fragment))

-- `time.Now().Add(time.Duration(ExpiresIn) * time.Second)`
unfoldable pub expiry : ℤ → ℤ → ℤ
expiry now expires_in = now +ℤ int64 (scale second expires_in)

abbrev pub token_form : Text → Text → Text
token_form client_id refresh_token = form_encode (
    (codes "grant_type", codes "refresh_token")
    ∷ (codes "client_id", client_id)
    ∷ (codes "refresh_token", refresh_token)
    ∷ [])

-- The roles of the new access token, or the old ones if it does not parse.
abbrev pub roles_or : List Text → Outcome Claims → List Text
roles_or old (ok claims) = extract_roles_from_claims claims
roles_or old _ = old

module _ (sh : Shell) where
  unfoldable pub renewed : SavedCreds → TokenResponse → SavedCreds
  unfolding expiry parse_access_token extract_roles_from_claims
  renewed old tokens = record {
    access_token = tokens.access_token;
    refresh_token = tokens.refresh_token;
    id_token = tokens.id_token;
    expires_at = expiry sh.granted_at tokens.expires_in;
    issued_at = sh.issued_at;
    user_info = record {
      sub = old.user_info.sub;
      email = old.user_info.email;
      name = old.user_info.name;
      roles =
          roles_or old.user_info.roles (parse_access_token sh.decode_claims tokens.access_token);
    };
  }

  -- A failed save is logged only.
  abbrev pub stored : SavedCreds → Disk → Outcome SavedCreds × Disk
  stored creds d = (ok creds, (save_creds sh creds d).1)

  abbrev pub with_tokens : SavedCreds → Option TokenResponse → Disk → Outcome SavedCreds × Disk
  with_tokens old none d = (err bad_json, d)
  with_tokens old (some tokens) d = stored (renewed old tokens) d

  abbrev pub with_reply : SavedCreds → Reply → Disk → Outcome SavedCreds × Disk
  with_reply old no_request d = (err request_failed, d)
  with_reply old no_answer d = (err fetch_failed, d)
  with_reply old (answer status false body) d = (err receive_failed, d)
  with_reply old (answer status true body) d =
      if nat_eq status 200
      then with_tokens old (sh.decode_tokens body) d
      else (err (bad_status status), d)

  -- `url.Parse` is not checked: `String` of a nil URL panics.
  abbrev pub with_url : SavedCreds → Text → Option Url → Disk → Outcome SavedCreds × Disk
  with_url old client_id none d = (panics, d)
  with_url old client_id (some u) d =
      with_reply old (sh.post (url_text u) (token_form client_id old.refresh_token)) d

  abbrev pub with_old : Outcome SavedCreds → Disk → Outcome SavedCreds × Disk
  with_old (ok old) d =
      let tenant = sh.getenv (codes "AUTH0_TENANT") in
      let client_id = sh.getenv (codes "AUTH0_NATIVE_CLIENT_ID") in
      if is_empty old.refresh_token
      then (err no_refresh_token, d)
      else if is_empty tenant || is_empty client_id
      then (err not_configured, d)
      else with_url old client_id
          (sh.parse_url (codes "https://" ++ (tenant ++ codes "/oauth/token"))) d
  with_old (err e) d = (err e, d)
  with_old panics d = (panics, d)
  with_old blocks d = (blocks, d)

  unfoldable pub get_refresh_token : Disk → Outcome SavedCreds × Disk
  unfolding load_creds save_creds renewed url_text
  get_refresh_token d = with_old (load_creds sh d) d

  abbrev pub refreshed : Outcome SavedCreds × Disk → Outcome Bool × Disk
  refreshed (ok creds, d) = (ok true, d)
  refreshed (err e, d) = (ok false, d)
  refreshed (panics, d) = (panics, d)
  refreshed (blocks, d) = (blocks, d)

  abbrev pub status_of : Outcome SavedCreds → Disk → Outcome Bool × Disk
  status_of (ok creds) d =
      if is_expired sh.checked_at creds then refreshed (get_refresh_token d) else (ok true, d)
  status_of (err e) d = (ok false, d)
  status_of panics d = (panics, d)
  status_of blocks d = (blocks, d)

  unfoldable pub login_status : Disk → Outcome Bool × Disk
  unfolding get_refresh_token is_expired
  login_status d = status_of (load_creds sh d) d

  -- `getCreds`: an error of `loadCreds` is logged only, and the nil credentials are looked at.
  abbrev pub creds_of : Outcome SavedCreds → Disk → Outcome SavedCreds × Disk
  creds_of (ok creds) d =
      if until_lt sh.checked_at creds.expires_at (30 * minute)
      then get_refresh_token d
      else (ok creds, d)
  creds_of (err e) d = (panics, d)
  creds_of panics d = (panics, d)
  creds_of blocks d = (blocks, d)

  unfoldable pub get_creds : Disk → Outcome SavedCreds × Disk
  unfolding get_refresh_token
  get_creds d = creds_of (load_creds sh d) d
