-- ===== src/Cli/Login/Session.antt =====
-- How the command `gprxy login` ends.
use gprxy.Common.{
  ℕ, ◌≡◌, refl, ap, sym, ◌∙◌, ◌⊎◌, inl, inr, Bool, true, false, List, arith, Text, Outcome, ok, err,
  blocks, Error, continue-ok,
}
use gprxy.Cli.{SavedCreds, TokenResponse, Url, Reply, no_request, no_answer, answer, Shell, Disk}
use gprxy.Cli.Refresh.{expiry, login_status}
use gprxy.Cli.Callback.{Callback, returned}
use gprxy.Cli.Callback.Vouching.{Granted, Reach-Granted}
use gprxy.Cli.Login.Channels.{
  Main, waiting, Channels, Step, stopped, received, Reach-received, Reach-Stuck, Step-stopped,
}
use gprxy.Cli.Login.{
  generate_code_verifier, tenant, client_id, code_params, tokens_of, token_reply,
  exchange_code_for_tokens, creds_from, save_tokens, finish_login, auth_url, unless_logged_in,
  login,
}
use gprxy.Cli.Login.Effects.{
  IsLoggedIn, login_status-IsLoggedIn, IsExchanged, exchange-IsExchanged, Holds, save_creds-Holds,
}

module _ (sh : Shell) (sha256 : Text → List ℕ) (verifier_buf state_buf : List ℕ) where
  -- A code that came with the state of this login was exchanged with its verifier for tokens, and
  -- the file holds credentials made of them.
  pub record IsFresh (s : Callback) (d' : Disk) : Type 0 where
    pub url : Url
    pub shown : (main : Main) → auth_url sh sha256 verifier_buf state_buf main ≡ ok url
    pub code : Text
    pub granted : Granted (generate_code_verifier state_buf) s.seen code
    pub tokens : TokenResponse
    pub exchanged : IsExchanged sh code (generate_code_verifier verifier_buf) tokens
    pub creds : SavedCreds
    pub holds : Holds sh creds d'
    pub access : creds.access_token ≡ tokens.access_token
    pub refresh : creds.refresh_token ≡ tokens.refresh_token
    pub id : creds.id_token ≡ tokens.id_token
    pub expires : creds.expires_at ≡ expiry sh.granted_at tokens.expires_in

  unless_logged_in-ok :
      (s : Callback) (r : Outcome Text) (c : Channels) (b : Bool) (d d' : Disk)
      → gprxy.Cli.Callback.Reach (generate_code_verifier state_buf) gprxy.Cli.Callback.begin s
      → s.phase ≡ returned r
      → gprxy.Cli.Login.Channels.Reach r gprxy.Cli.Login.Channels.begin c
      → unless_logged_in sh sha256 verifier_buf state_buf c.main b d ≡ (ok tt, d')
      → ((b ≡ true) × (d' ≡ d)) ⊎ ((b ≡ false) × IsFresh s d')
  unfolding finish_login creds_from
  unless_logged_in-ok s r c true d d' run ended wait h = inl (refl, ground arith)
  unless_logged_in-ok s r c false d d' run ended wait h =
      let (url, shown, h₁) = continue-ok _ _ d d' tt h in
      let (code, came, h₂) = continue-ok (received c.main) _ d d' tt h₁ in
      let (tokens, exchanged, saved) =
        continue-ok (exchange_code_for_tokens sh code (generate_code_verifier verifier_buf)) _ d d'
          tt h₂ in
      inr (
        refl,
        record {
          url = url;
          shown = λ main. shown;
          code = code;
          granted =
              Reach-Granted (generate_code_verifier state_buf) s code run
                (ended ∙ ap returned (Reach-received r c code wait came));
          tokens = tokens;
          exchanged =
              exchange-IsExchanged sh code (generate_code_verifier verifier_buf) tokens exchanged;
          creds = creds_from sh tokens;
          holds = save_creds-Holds sh (creds_from sh tokens) d d' saved;
          access = refl;
          refresh = refl;
          id = refl;
          expires = refl;
        },
      )

  -- A login that succeeds, with the callback server and its goroutine run in whatever order, either
  -- loaded credentials that are not near their expiry, and changed nothing; or loaded credentials
  -- that are, and renewed them; or a callback with the state of this login brought a code, the
  -- provider answered the form with this code and the verifier of this login by tokens, and the
  -- file holds credentials with these tokens and their expiry.
  pub login-IsFresh :
      (s : Callback) (r : Outcome Text) (c : Channels) (d d' : Disk)
      → gprxy.Cli.Callback.Reach (generate_code_verifier state_buf) gprxy.Cli.Callback.begin s
      → s.phase ≡ returned r
      → gprxy.Cli.Login.Channels.Reach r gprxy.Cli.Login.Channels.begin c
      → login sh sha256 verifier_buf state_buf c.main d ≡ (ok tt, d')
      → IsLoggedIn sh d d' ⊎ IsFresh s d'
  unfolding login
  login-IsFresh s r c d d' run ended wait h =
      let status = login_status sh d in
      let (b, e, h₁) = continue-ok status.0 _ status.1 d' tt h in
      elim (unless_logged_in-ok s r c b status.1 d' run ended wait h₁) [
        | inl (t, same) ↦ inl (
            login_status-IsLoggedIn sh d d' (
              ap (λ x. (x, status.1)) e
              ∙ ap (λ x. (ok x, status.1)) t
              ∙ ap (λ x. (ok true, x)) (sym same)))
        | inr (f, fresh) ↦ inr fresh
      ]

  -- When the callback server fails, as by a timeout or a state that does not match, the login of a
  -- user who is not logged in never ends: in every interleaving of the receive with the goroutine it
  -- is still waiting for the code, and once the goroutine has put its error into the other channel,
  -- no step is left. The URL could be built.
  pub login-stalls :
      (s : Callback) (x : Error) (c : Channels) (d : Disk) (u : Url)
      → gprxy.Cli.Callback.Reach (generate_code_verifier state_buf) gprxy.Cli.Callback.begin s
      → s.phase ≡ returned (err x)
      → gprxy.Cli.Login.Channels.Reach (err x) gprxy.Cli.Login.Channels.begin c
      → (login_status sh d).0 ≡ ok false
      → auth_url sh sha256 verifier_buf state_buf c.main ≡ ok u
      → ((login sh sha256 verifier_buf state_buf c.main d).0 ≡ blocks)
        × (c.server ≡ stopped → (c' : Channels) → Step (err x) c c' → ⊥)
  unfolding login finish_login
  login-stalls s x c d u run ended wait out shown =
      let stuck = Reach-Stuck x wait in
      (rw (out, shown, stuck.0) refl, λ e c' step. Step-stopped x step stuck e)
