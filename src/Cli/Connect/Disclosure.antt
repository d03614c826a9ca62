-- ===== src/Cli/Connect/Disclosure.antt =====
-- To whom `gprxy connect` shows the access token.
use mathlib.Core.Path.{subst}
use gprxy.Common.{
  ℕ, ◌≡◌, refl, sym, ap, ◌⊎◌, inl, inr, Bool, true, false, Option, none, some, List, [], ◌∷◌, codes,
  Event, arrives, Sink, send, Outcome, ok, err, panics, blocks, continue,
}
use gprxy.Protocol.{FrontendMessage, startup_message, password_message, BackendMessage}
use gprxy.Tls.{Channel, plain, Line, ssl_request_bytes, upgrade_to_tls}
use gprxy.Cli.{SavedCreds, Shell, Disk}
use gprxy.Cli.Refresh.{get_creds}
use gprxy.Cli.Connect.{
  ConnectionConfig, Net, validate, Run, startup_parameters, send_message, with_reply, after_creds,
  upgraded, talk, with_connection, connect,
}

module _ (sh : Shell) (c : ConnectionConfig) where
  -- The writes of `connect`: the startup message, and then perhaps the access token.
  abbrev pub Writes : SavedCreds → Sink FrontendMessage → Sink FrontendMessage → Type 0
  Writes creds k k' =
      let k₁ = (send (startup_message (startup_parameters c creds)) k).1 in
      (k' ≡ k₁) ⊎ (k' ≡ (send (password_message creds.access_token) k₁).1)

  -- The credentials were at hand, and the upgrade of the connection ended well, before the writes.
  pub record IsDisclosure (r r' : Run) : Type 0 where
    pub creds : SavedCreds
    pub given : (get_creds sh r.disk).0 ≡ ok creds
    pub channel : Channel
    pub upgrade : (upgrade_to_tls (sh.getenv (codes "PROXY_URL")) r.line).0 ≡ ok channel
    pub over : r'.channel ≡ some channel
    pub writes : Writes creds r.sent r'.sent

  of_replies :
      (creds : SavedCreds) (k : Sink FrontendMessage) (replies : List (Event BackendMessage))
      (r : Run)
      → r.sent ≡ (send (startup_message (startup_parameters c creds)) k).1
      → Writes creds k (with_reply creds replies r).1.sent
        × ((with_reply creds replies r).1.channel ≡ r.channel)
  unfolding send_message
  of_replies creds k [] r e = (inl e, refl)
  of_replies creds k (x ∷ rest) r e =
      (inr (ap (λ s. (send (password_message creds.access_token) s).1) e), refl)

  talk-Writes :
      (creds : SavedCreds) (r : Run)
      → Writes creds r.sent (talk c creds r).1.sent × ((talk c creds r).1.channel ≡ r.channel)
  unfolding talk send_message
  talk-Writes creds r =
      of_replies creds r.sent r.replies
        (send_message (startup_message (startup_parameters c creds)) r) refl

  -- Nothing was sent, or a disclosure was made.
  abbrev pub Discloses : Run → Run → Type 0
  Discloses r r' = (r'.sent ≡ r.sent) ⊎ IsDisclosure r r'

  of_upgrade :
      (creds : SavedCreds) (r : Run) (u : Outcome Channel × Line)
      → (get_creds sh r.disk).0 ≡ ok creds
      → (r₀ : Run) → r₀.sent ≡ r.sent
      → upgrade_to_tls (sh.getenv (codes "PROXY_URL")) r.line ≡ u
      → Discloses r (continue (upgraded u r₀).0 (λ _. talk c creds) (upgraded u r₀).1).1
  of_upgrade creds r (ok channel, l) g r₀ e u =
      let r₁ : Run = record r₀ { line = l; channel = some channel } in
      let (writes, over) = talk-Writes creds r₁ in
      inr (record {
        creds = creds;
        given = g;
        channel = channel;
        upgrade = ap (λ x. x.0) u;
        over = over;
        writes = subst (λ k. Writes creds k (talk c creds r₁).1.sent) e writes;
      })
  of_upgrade creds r (err x, l) g r₀ e u = inl e
  of_upgrade creds r (panics, l) g r₀ e u = inl e
  of_upgrade creds r (blocks, l) g r₀ e u = inl e

  of_dial :
      (dialled : Bool) (creds : SavedCreds) (r r₀ : Run)
      → (get_creds sh r.disk).0 ≡ ok creds
      → r₀.sent ≡ r.sent
      → r₀.line ≡ r.line
      → Discloses r (with_connection sh dialled c creds r₀).1
  of_dial false creds r r₀ g e l = inl e
  of_dial true creds r r₀ g e l =
      of_upgrade creds r (upgrade_to_tls (sh.getenv (codes "PROXY_URL")) r₀.line) g r₀ e
        (ap (upgrade_to_tls (sh.getenv (codes "PROXY_URL"))) (sym l))

  of_creds :
      (dialled : Bool) (r r₀ : Run) (g : Outcome SavedCreds × Disk)
      → get_creds sh r.disk ≡ g
      → r₀.sent ≡ r.sent
      → r₀.line ≡ r.line
      → Discloses r
          (continue (after_creds g r₀).0 (with_connection sh dialled c) (after_creds g r₀).1).1
  of_creds dialled r r₀ (ok creds, d) e s l =
      of_dial dialled creds r (record r₀ { disk = d }) (ap (λ x. x.0) e) s l
  of_creds dialled r r₀ (err x, d) e s l = inl s
  of_creds dialled r r₀ (panics, d) e s l = inl s
  of_creds dialled r r₀ (blocks, d) e s l = inl s

  -- Two ends that differ in what `Validate` said at most.
  abbrev pub Alike : Outcome (Unit {0}) × Run → Outcome (Unit {0}) × Run → Type 0
  Alike a b =
      (a.0 ≡ b.0)
      × (◌≡◌ {A = Run} (record a.1 { validated = none }) (record b.1 { validated = none }))

  module _ (v w : Option (Outcome (Unit {0}))) (creds : SavedCreds) where
    with_reply-Alike :
        (replies : List (Event BackendMessage)) (r : Run)
        → Alike
            (with_reply creds replies (record r { validated = v }))
            (with_reply creds replies (record r { validated = w }))
    unfolding send_message
    with_reply-Alike [] r = (refl, refl)
    with_reply-Alike (e ∷ rest) r = (refl, refl)

    talk-Alike :
        (r : Run)
        → Alike
            (talk c creds (record r { validated = v }))
            (talk c creds (record r { validated = w }))
    unfolding talk send_message
    talk-Alike r =
        with_reply-Alike r.replies (send_message (startup_message (startup_parameters c creds)) r)

    upgraded-Alike :
        (u : Outcome Channel × Line) (r : Run)
        → let f = λ (x : Run). continue (upgraded u x).0 (λ _. talk c creds) (upgraded u x).1 in
          Alike (f (record r { validated = v })) (f (record r { validated = w }))
    upgraded-Alike (ok channel, l) r = talk-Alike (record r { line = l; channel = some channel })
    upgraded-Alike (err e, l) r = (refl, refl)
    upgraded-Alike (panics, l) r = (refl, refl)
    upgraded-Alike (blocks, l) r = (refl, refl)

    with_connection-Alike :
        (dialled : Bool) (r : Run)
        → Alike
            (with_connection sh dialled c creds (record r { validated = v }))
            (with_connection sh dialled c creds (record r { validated = w }))
    with_connection-Alike false r = (refl, refl)
    with_connection-Alike true r =
        upgraded-Alike (upgrade_to_tls (sh.getenv (codes "PROXY_URL")) r.line) r

  after_creds-Alike :
      (v w : Option (Outcome (Unit {0}))) (dialled : Bool) (g : Outcome SavedCreds × Disk) (r : Run)
      → let f = λ (x : Run).
        continue (after_creds g x).0 (with_connection sh dialled c) (after_creds g x).1 in
        Alike (f (record r { validated = v })) (f (record r { validated = w }))
  after_creds-Alike v w dialled (ok creds, d) r =
      with_connection-Alike v w creds dialled (record r { disk = d })
  after_creds-Alike v w dialled (err x, d) r = (refl, refl)
  after_creds-Alike v w dialled (panics, d) r = (refl, refl)
  after_creds-Alike v w dialled (blocks, d) r = (refl, refl)

  -- However `connect` ends, it wrote nothing after the upgrade, or it had credentials, the upgrade
  -- ended well, and it wrote the startup message and then at most the access token of these
  -- credentials. What `Validate` says plays no part: on a network on which it says something else,
  -- the result and all that was read and written are the same.
  pub connect-Discloses :
      (net net' : Net) (dialled : Bool) (r : Run)
      → Discloses r (connect sh net dialled c r).1
        × Alike (connect sh net dialled c r) (connect sh net' dialled c r)
  unfolding connect
  connect-Discloses net net' dialled r = (
    of_creds dialled r (record r { validated = some (validate net c) }) (get_creds sh r.disk) refl
        refl refl,
    after_creds-Alike (some (validate net c)) (some (validate net' c)) dialled (get_creds sh r.disk)
        r,
  )

  -- The token goes out in the clear if the proxy, or whoever answers in its place, says 'N' to the
  -- request for TLS.
  pub connect-plain :
      (net : Net) (creds : SavedCreds) (d : Disk) (r : Run) (more : List (Event ℕ))
      (e : Event BackendMessage) (rest : List (Event BackendMessage))
      → get_creds sh r.disk ≡ (ok creds, d)
      → (send ssl_request_bytes r.line.wire).0 ≡ true
      → r.line.responses ≡ arrives b'N' ∷ more
      → r.replies ≡ e ∷ rest
      → let r' = (connect sh net true c r).1 in
        (r'.channel ≡ some plain)
        × (r'.sent
            ≡ (send
                (password_message creds.access_token)
                (send (startup_message (startup_parameters c creds)) r.sent).1).1)
  unfolding connect talk send_message upgrade_to_tls
  connect-plain net creds d r more e rest g w n a = rw (g, true_pair, n, a) (refl, refl)
    where
      k : Sink (List ℕ)
      k = (send ssl_request_bytes r.line.wire).1

      true_pair : send ssl_request_bytes r.line.wire ≡ (true, k)
      true_pair = ap (λ b. (b, k)) w
