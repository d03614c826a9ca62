-- ===== src/Cli/Login/Effects.antt =====
-- What the steps of the command `gprxy login` have done when they succeed.
use gprxy.Common.{
  ◌≡◌, refl, ap, sym, ◌∙◌, ◌⊎◌, inl, inr, Bool, true, false, ◌||◌, Bool-cases, Option, none, some,
  ◌++◌, arith, Text, codes, is_empty, nat_eq, Outcome, ok, err, panics, blocks, Error,
}
use gprxy.Form.{form_encode}
use gprxy.Cli.{SavedCreds, TokenResponse, Reply, no_request, no_answer, answer, Shell, Disk}
use gprxy.Cli.Creds.{has_path, encoded, save_creds, load_creds, is_expired}
use gprxy.Cli.Refresh.{refreshed, status_of, get_refresh_token, login_status}
use gprxy.Cli.Refresh.Renewal.{IsRenewal, get_refresh_token-IsRenewal}
use gprxy.Cli.Login.{
  tenant, client_id, code_params, tokens_of, token_reply, exchange_code_for_tokens,
}

module _ (sh : Shell) where
  -- The stored credentials are far enough from their expiry, or were renewed.
  pub record IsLoggedIn (d d' : Disk) : Type 0 where
    pub creds : SavedCreds
    pub loaded : load_creds sh d ≡ ok creds
    pub valid :
        ((is_expired sh.checked_at creds ≡ false) × (d' ≡ d))
        ⊎ ((is_expired sh.checked_at creds ≡ true) × (new : SavedCreds) × IsRenewal sh d new d')

  of_refresh :
      (d d' : Disk) (r : Outcome SavedCreds × Disk)
      → get_refresh_token sh d ≡ r
      → refreshed sh r ≡ (ok true, d')
      → (new : SavedCreds) × IsRenewal sh d new d'
  of_refresh d d' (ok new, t) e h =
      (new, get_refresh_token-IsRenewal sh d d' new (e ∙ ap (λ x. (ok new, x.1)) h))
  of_refresh d d' (err x, t) e h = absurd (ground arith)
  of_refresh d d' (panics, t) e h = absurd (ground arith)
  of_refresh d d' (blocks, t) e h = absurd (ground arith)

  of_status :
      (d d' : Disk) (r : Outcome SavedCreds)
      → load_creds sh d ≡ r
      → status_of sh r d ≡ (ok true, d')
      → IsLoggedIn d d'
  of_status d d' (ok creds) e h = elim (Bool-cases (is_expired sh.checked_at creds)) [
    | inl x ↦
        let (new, renewal) = of_refresh d d' (get_refresh_token sh d) refl (rw x at h) in
        record { creds = creds; loaded = e; valid = inr (x, new, renewal) }
    | inr x ↦ record {
      creds = creds;
      loaded = e;
      valid = inl (x, sym (ap (λ y. y.1) (the_disk (rw x at h))));
    }
  ]
    where
      the_disk :
          ◌≡◌ {A = Outcome Bool × Disk} (ok true, d) (ok true, d')
          → ◌≡◌ {A = Outcome Bool × Disk} (ok true, d) (ok true, d')
      the_disk p = p
  of_status d d' (err x) e h = absurd (ground arith)
  of_status d d' panics e h = absurd (ground arith)
  of_status d d' blocks e h = absurd (ground arith)

  pub login_status-IsLoggedIn : (d d' : Disk) → login_status sh d ≡ (ok true, d') → IsLoggedIn d d'
  unfolding login_status
  login_status-IsLoggedIn d d' h = of_status d d' (load_creds sh d) refl h

  -- The provider's answer to the form with this code and verifier.
  pub record IsExchanged (code verifier : Text) (tokens : TokenResponse) : Type 0 where
    pub whole : Bool
    pub body : Text
    pub answered :
        sh.post
          (codes "https://" ++ (tenant sh ++ codes "/oauth/token"))
          (form_encode (code_params sh code verifier))
        ≡ answer 200 whole body
    pub decoded : sh.decode_tokens body ≡ some tokens

  of_tokens :
      (o : Option TokenResponse) (tokens : TokenResponse)
      → tokens_of sh o ≡ ok tokens
      → o ≡ some tokens
  of_tokens none tokens h = absurd (ground arith)
  of_tokens (some t) tokens h = ground arith

  of_reply :
      (code verifier : Text) (tokens : TokenResponse) (r : Reply)
      → sh.post
          (codes "https://" ++ (tenant sh ++ codes "/oauth/token"))
          (form_encode (code_params sh code verifier))
        ≡ r
      → token_reply sh r ≡ ok tokens
      → IsExchanged code verifier tokens
  of_reply code verifier tokens no_request e h = absurd (ground arith)
  of_reply code verifier tokens no_answer e h = absurd (ground arith)
  of_reply code verifier tokens (answer status whole body) e h =
      elim (Bool-cases (nat_eq status 200)) [
        | inl x ↦ record {
          whole = whole;
          body = body;
          answered = e ∙ ap (λ n. answer n whole body) (ground arith);
          decoded = of_tokens (sh.decode_tokens body) tokens (rw x at h);
        }
        | inr x ↦ absurd (ground arith)
      ]

  pub exchange-IsExchanged :
      (code verifier : Text) (tokens : TokenResponse)
      → exchange_code_for_tokens sh code verifier ≡ ok tokens
      → IsExchanged code verifier tokens
  unfolding exchange_code_for_tokens
  exchange-IsExchanged code verifier tokens h =
      elim (Bool-cases (is_empty (tenant sh) || is_empty (client_id sh))) [
        | inl x ↦ absurd (refused (rw x at h))
        | inr x ↦ of_reply code verifier tokens _ refl (rw x at h)
      ]
    where
      refused : ◌≡◌ {A = Outcome TokenResponse} (err Error.not_configured) (ok tokens) → ⊥
      refused p = ground arith

  -- The file holds the credentials.
  abbrev pub Holds : SavedCreds → Disk → Type 0
  Holds creds d =
      (bytes : Text) × (sh.encode_creds creds ≡ some bytes) × (d.credentials ≡ some bytes)

  of_encoded :
      (creds : SavedCreds) (o : Option Text) (d d' : Disk)
      → sh.encode_creds creds ≡ o
      → encoded o d ≡ (ok tt, d')
      → Holds creds d'
  of_encoded creds none d d' e h = absurd (ground arith)
  of_encoded creds (some bytes) d d' e h = (bytes, e, ground arith)

  pub save_creds-Holds :
      (creds : SavedCreds) (d d' : Disk) → save_creds sh creds d ≡ (ok tt, d') → Holds creds d'
  unfolding save_creds
  save_creds-Holds creds d d' h = elim (Bool-cases (has_path d)) [
    | inl x ↦ of_encoded creds (sh.encode_creds creds) d d' refl (rw x at h)
    | inr x ↦ absurd (refused (rw x at h))
  ]
    where
      refused : ◌≡◌ {A = Outcome (Unit {0}) × Disk} (err Error.no_credentials, d) (ok tt, d') → ⊥
      refused p = ground arith
