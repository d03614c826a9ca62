-- ===== src/Cli/Login/Pkce.antt =====
-- The two requests of a login, read as the identity provider reads them (RFC 7636).
use gprxy.Common.{
  ℕ, ◌≡◌, refl, ap, ◌∙◌, ◌||◌, Bool-cases, inl, inr, Option, none, some, List, [], ◌∷◌, ◌++◌, arith,
  Text, Text_eq, text_eq, codes, lookup, is_empty, All, Outcome, ok, err, not_configured,
}
use gprxy.Base64.{encode}
use gprxy.Base64.RoundTrip.{IsUrlSafe, encode_lem}
use gprxy.Form.{Pairs, by_key, by_key_onto, insert_pair, text_leb, form_encode, parse_form}
use gprxy.Form.RoundTrip.{Bytes, IsBytes, parse_form-form_encode}
use gprxy.Cli.{Url, Shell}
use gprxy.Cli.Login.{
  generate_code_verifier, generate_code_challenge, tenant, client_id, auth_params, with_query,
  build_auth_url, code_params, token_reply, exchange_code_for_tokens,
}

IsUrlSafe-Bytes : (s : Text) → All IsUrlSafe s → Bytes s
IsUrlSafe-Bytes [] h = tt
IsUrlSafe-Bytes (c ∷ s) (p, h) = (ground arith, IsUrlSafe-Bytes s h)

encode-Bytes : (bytes : List ℕ) → Bytes (encode bytes)
encode-Bytes bytes = IsUrlSafe-Bytes (encode bytes) (encode_lem bytes).1

-- The variables that go into the requests are byte strings.
pub record HasBytes (sh : Shell) : Type 0 where
  pub client_id_bytes : Bytes (client_id sh)
  pub callback_bytes : Bytes (sh.getenv (codes "CALLBACK_URL"))
  pub audience_bytes : Bytes (sh.getenv (codes "AUDIENCE"))
  pub connection_bytes : Bytes (sh.getenv (codes "CONNECTION_NAME"))

module _ (sh : Shell) (env : HasBytes sh) where
  auth_params-IsBytes :
      (challenge state : Text)
      → Bytes challenge
      → Bytes state
      → All IsBytes (auth_params sh challenge state)
  auth_params-IsBytes challenge state c s =
      let h : HasBytes sh = env in
      (
        (ground arith, ground arith),
        (
          (ground arith, c),
          (
            (ground arith, ground arith),
            (
              (ground arith, h.client_id_bytes),
              (
                (ground arith, h.callback_bytes),
                (
                  (ground arith, ground arith),
                  (
                    (ground arith, h.audience_bytes),
                    ((ground arith, s), ((ground arith, h.connection_bytes), tt)),
                  ),
                ),
              ),
            ),
          ),
        ),
      )

  code_params-IsBytes :
      (code verifier : Text)
      → Bytes code
      → Bytes verifier
      → All IsBytes (code_params sh code verifier)
  code_params-IsBytes code verifier c v =
      let h : HasBytes sh = env in
      (
        (ground arith, ground arith),
        (
          (ground arith, h.client_id_bytes),
          ((ground arith, c), ((ground arith, h.callback_bytes), ((ground arith, v), tt))),
        ),
      )

  -- The query of the authorisation URL, as it is read.
  abbrev pub auth_query : Text → Text → Pairs
  auth_query challenge state =
      (codes "audience", sh.getenv (codes "AUDIENCE"))
      ∷ (codes "client_id", client_id sh)
      ∷ (codes "code_challenge", challenge)
      ∷ (codes "code_challenge_method", codes "S256")
      ∷ (codes "connection", sh.getenv (codes "CONNECTION_NAME"))
      ∷ (codes "redirect_uri", sh.getenv (codes "CALLBACK_URL"))
      ∷ (codes "response_type", codes "code")
      ∷ (codes "scope", codes "openid profile email offline_access groups")
      ∷ (codes "state", state)
      ∷ []

  by_key-auth_params :
      (challenge state : Text)
      → by_key (auth_params sh challenge state) ≡ auth_query challenge state
  unfolding by_key_onto insert_pair text_leb
  by_key-auth_params challenge state = refl

  -- The form of the exchange, as it is read.
  abbrev pub code_form : Text → Text → Pairs
  code_form code verifier =
      (codes "client_id", client_id sh)
      ∷ (codes "code", code)
      ∷ (codes "code_verifier", verifier)
      ∷ (codes "grant_type", codes "authorization_code")
      ∷ (codes "redirect_uri", sh.getenv (codes "CALLBACK_URL"))
      ∷ []

  by_key-code_params :
      (code verifier : Text) → by_key (code_params sh code verifier) ≡ code_form code verifier
  unfolding by_key_onto insert_pair text_leb
  by_key-code_params code verifier = refl

  with_query-raw_query :
      (query : Text) (o : Option Url) (u : Url) → with_query sh query o ≡ ok u → u.raw_query ≡ query
  with_query-raw_query query none u h = absurd (ground arith)
  with_query-raw_query query (some v) u h = ground arith

  build_auth_url-raw_query :
      (challenge state : Text) (u : Url)
      → build_auth_url sh challenge state ≡ ok u
      → u.raw_query ≡ form_encode (auth_params sh challenge state)
  unfolding build_auth_url
  build_auth_url-raw_query challenge state u h =
      elim (Bool-cases (is_empty (tenant sh) || is_empty (client_id sh))) [
        | inl e ↦ absurd (refused (rw e at h))
        | inr e ↦
            with_query-raw_query (form_encode (auth_params sh challenge state))
              (sh.parse_url (codes "https://" ++ (tenant sh ++ codes "/authorize"))) u (rw e at h)
      ]
    where
      refused : ◌≡◌ {A = Outcome Url} (err not_configured) (ok u) → ⊥
      refused p = ground arith

  build_auth_url-posted :
      (challenge state code verifier : Text) (u : Url)
      → build_auth_url sh challenge state ≡ ok u
      → exchange_code_for_tokens sh code verifier
        ≡ token_reply sh (
            sh.post
              (codes "https://" ++ (tenant sh ++ codes "/oauth/token"))
              (form_encode (code_params sh code verifier)))
  unfolding build_auth_url exchange_code_for_tokens
  build_auth_url-posted challenge state code verifier u h =
      elim (Bool-cases (is_empty (tenant sh) || is_empty (client_id sh))) [
        | inl e ↦ absurd (refused (rw e at h))
        | inr e ↦ rw e refl
      ]
    where
      refused : ◌≡◌ {A = Outcome Url} (err not_configured) (ok u) → ⊥
      refused p = ground arith

  -- The identity provider's view of one login: the query of the URL that the browser opens and the
  -- form that the exchange of the code posts to the tenant. The challenge of the query is the S256 transform of the
  -- verifier of the form, and the query carries the state that the callback is checked against.
  pub record IsVerifiable (sha256 : Text → List ℕ) (verifier state code : Text) (u : Url)
      : Type 0 where
    pub query : Pairs
    pub form : Pairs
    pub query_eq : parse_form u.raw_query ≡ some query
    pub body : Text
    pub posted :
        exchange_code_for_tokens sh code verifier
        ≡ token_reply sh (sh.post (codes "https://" ++ (tenant sh ++ codes "/oauth/token")) body)
    pub form_eq : parse_form body ≡ some form
    pub method : lookup (codes "code_challenge_method") query ≡ some (codes "S256")
    pub challenge : lookup (codes "code_challenge") query ≡ some (encode (sha256 verifier))
    pub state_sent : lookup (codes "state") query ≡ some state
    pub verifier_sent : lookup (codes "code_verifier") form ≡ some verifier
    pub code_sent : lookup (codes "code") form ≡ some code
    pub same_redirect : lookup (codes "redirect_uri") query ≡ lookup (codes "redirect_uri") form

  -- The requests of a login pass the provider's PKCE check, for whatever the two buffers hold and
  -- whichever code comes back, if the variables and the code are byte strings.
  pub build_auth_url-IsVerifiable :
      (sha256 : Text → List ℕ) (verifier_buf state_buf : List ℕ) (code : Text) (u : Url)
      → Bytes code
      → build_auth_url sh
          (generate_code_challenge sha256 (generate_code_verifier verifier_buf))
          (generate_code_verifier state_buf)
        ≡ ok u
      → IsVerifiable sha256
          (generate_code_verifier verifier_buf)
          (generate_code_verifier state_buf)
          code
          u
  unfolding generate_code_challenge generate_code_verifier lookup text_eq
  build_auth_url-IsVerifiable sha256 verifier_buf state_buf code u c h =
      let verifier : Text = encode verifier_buf in
      let challenge : Text = encode (sha256 verifier) in
      let state : Text = encode state_buf in
      record {
        query = auth_query challenge state;
        form = code_form code verifier;
        query_eq =
            ap parse_form (build_auth_url-raw_query challenge state u h)
            ∙ parse_form-form_encode (auth_params sh challenge state) (
                auth_params-IsBytes challenge state (encode-Bytes (sha256 verifier))
                  (encode-Bytes state_buf))
            ∙ ap some (by_key-auth_params challenge state);
        body = form_encode (code_params sh code verifier);
        posted = build_auth_url-posted challenge state code verifier u h;
        form_eq =
            parse_form-form_encode (code_params sh code verifier)
              (code_params-IsBytes code verifier c (encode-Bytes verifier_buf))
            ∙ ap some (by_key-code_params code verifier);
        method = refl;
        challenge = refl;
        state_sent = refl;
        verifier_sent = refl;
        code_sent = refl;
        same_redirect = refl;
      }
