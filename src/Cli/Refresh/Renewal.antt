-- ===== src/Cli/Refresh/Renewal.antt =====
-- What a refresh that succeeds has done, and what the next one does.
use gprxy.Common.{
  ◌≡◌, refl, sym, ap, ◌∙◌, true, false, ◌||◌, Option, none, some, ◌++◌, arith, Text, codes,
  is_empty, nat_eq, Bool-cases, inl, inr, Outcome, ok, err, panics, blocks, not_configured,
}
use gprxy.Cli.{SavedCreds, TokenResponse, Url, Reply, no_request, no_answer, answer, Shell, Disk}
use gprxy.Cli.Creds.{save_creds, load_creds}
use gprxy.Cli.Refresh.{
  url_text, token_form, renewed, with_tokens, with_reply, with_url, with_old, get_refresh_token,
}

module _ (sh : Shell) where
  abbrev client_id : Text
  client_id = sh.getenv (codes "AUTH0_NATIVE_CLIENT_ID")

  abbrev endpoint : Text
  endpoint = codes "https://" ++ (sh.getenv (codes "AUTH0_TENANT") ++ codes "/oauth/token")

  -- The stored refresh token was posted to the tenant's endpoint, the answer was a 200 that holds
  -- tokens, the new credentials are made of these and of the old user, and were given to the disk.
  pub record IsRenewal (d : Disk) (creds : SavedCreds) (d' : Disk) : Type 0 where
    pub old : SavedCreds
    pub loaded : load_creds sh d ≡ ok old
    pub held : is_empty old.refresh_token ≡ false
    pub url : Url
    pub parsed : sh.parse_url endpoint ≡ some url
    pub body : Text
    pub answered :
        sh.post (url_text url) (token_form client_id old.refresh_token) ≡ answer 200 true body
    pub tokens : TokenResponse
    pub decoded : sh.decode_tokens body ≡ some tokens
    pub creds_eq : creds ≡ renewed sh old tokens
    pub disk_eq : d' ≡ (save_creds sh creds d).1

  module _ (d d' : Disk) (creds old : SavedCreds) (loaded : load_creds sh d ≡ ok old)
      (held : is_empty old.refresh_token ≡ false) (url : Url)
      (parsed : sh.parse_url endpoint ≡ some url) where
    abbrev posted : Reply
    posted = sh.post (url_text url) (token_form client_id old.refresh_token)

    of_tokens :
        (body : Text) (o : Option TokenResponse)
        → posted ≡ answer 200 true body
        → sh.decode_tokens body ≡ o
        → with_tokens sh old o d ≡ (ok creds, d')
        → IsRenewal d creds d'
    of_tokens body none p e h = absurd (ground arith)
    of_tokens body (some tokens) p e h =
        let same : creds ≡ renewed sh old tokens = ground arith in
        record {
          old = old;
          loaded = loaded;
          held = held;
          url = url;
          parsed = parsed;
          body = body;
          answered = p;
          tokens = tokens;
          decoded = e;
          creds_eq = same;
          disk_eq = sym (ap (λ r. r.1) h) ∙ ap (λ c. (save_creds sh c d).1) (sym same);
        }

    of_reply :
        (r : Reply) → posted ≡ r → with_reply sh old r d ≡ (ok creds, d') → IsRenewal d creds d'
    of_reply no_request p h = absurd (ground arith)
    of_reply no_answer p h = absurd (ground arith)
    of_reply (answer status false body) p h = absurd (ground arith)
    of_reply (answer status true body) p h = elim (Bool-cases (nat_eq status 200)) [
      | inl e ↦
          of_tokens body (sh.decode_tokens body) (p ∙ ap (λ n. answer n true body) (ground arith))
            refl (rw e at h)
      | inr e ↦ absurd (ground arith)
    ]

  of_url :
      (d d' : Disk) (creds old : SavedCreds) (o : Option Url)
      → load_creds sh d ≡ ok old
      → is_empty old.refresh_token ≡ false
      → sh.parse_url endpoint ≡ o
      → with_url sh old client_id o d ≡ (ok creds, d')
      → IsRenewal d creds d'
  of_url d d' creds old none l k e h = absurd (ground arith)
  of_url d d' creds old (some url) l k e h = of_reply d d' creds old l k url e _ refl h

  of_old :
      (d d' : Disk) (creds : SavedCreds) (r : Outcome SavedCreds)
      → load_creds sh d ≡ r
      → with_old sh r d ≡ (ok creds, d')
      → IsRenewal d creds d'
  of_old d d' creds (ok old) l h = elim (Bool-cases (is_empty old.refresh_token)) [
    | inl k ↦ absurd (ground arith)
    | inr k ↦
        elim (Bool-cases (is_empty (sh.getenv (codes "AUTH0_TENANT")) || is_empty client_id)) [
          | inl c ↦ absurd (refused (rw (k, c) at h))
          | inr c ↦ of_url d d' creds old (sh.parse_url endpoint) l k refl (rw (k, c) at h)
        ]
  ]
    where
      refused : ◌≡◌ {A = Outcome SavedCreds × Disk} (err not_configured, d) (ok creds, d') → ⊥
      refused e = ground arith
  of_old d d' creds (err e) l h = absurd (ground arith)
  of_old d d' creds panics l h = absurd (ground arith)
  of_old d d' creds blocks l h = absurd (ground arith)

  -- A refresh that succeeds has posted the stored refresh token to the tenant, got a 200 with
  -- tokens, and made the credentials of these, of the stored user, and of the clock; whatever the
  -- save did to the disk is all that happened to it.
  pub get_refresh_token-IsRenewal :
      (d d' : Disk) (creds : SavedCreds)
      → get_refresh_token sh d ≡ (ok creds, d')
      → IsRenewal d creds d'
  unfolding get_refresh_token
  get_refresh_token-IsRenewal d d' creds h = of_old d d' creds (load_creds sh d) refl h
