-- ===== src/Proxy/Opening.antt =====
-- internal/proxy/startup.go: how a client gets to the query loop.
use gprxy.Common.{
  continue-ok, ℕ, ◌≡◌, ◌≢◌, refl, ap, ◌∙◌, Bool, true, false, Option, none, some, List, [], ◌∷◌,
  ◌++◌, arith, Text, Text_eq, Map, length, All, Event, arrives, lost, Sink, send, Outcome, ok, err,
  panics, blocks, ℕ_eq,
}
use gprxy.Protocol.{
  byte, BackendKeyData, StartupRequest, startup, ssl_request, gss_enc_request, cancel_request,
  Packet,
}
use gprxy.Proxy.Counting.{continue-Keeps}
use gprxy.Proxy.State.{World, Env}
use gprxy.Proxy.Cancel.{send_cancel}
use gprxy.Proxy.Startup.{
  upgrade, written, write, cancelled, cancel_target, handle_cancel, answer_ssl, left, startup_loop,
  handle_startup_message,
}
use gprxy.Proxy.Greeting.{IsSession, start_session-IsSession}

module _ {Conv : Type 0} (env : Env Conv) where
  send_cancel-fails :
      (o : Option ℕ) (k : BackendKeyData) (w w' : World) → cancel_target env o k w ≢ (ok tt, w')
  send_cancel-fails none k w w' h = absurd (ground arith)
  send_cancel-fails (some c) k w w' h =
      of_result (send_cancel env.cancel_dialled env.cancel_written k w.cancels) h
    where
      of_result : (r : Outcome (Unit {0}) × List (List ℕ)) → cancelled r w ≢ (ok tt, w')
      of_result (ok _, sent) g = ground arith
      of_result (err e, sent) g = ground arith
      of_result (panics, sent) g = ground arith
      of_result (blocks, sent) g = ground arith

  -- Not a request for GSSAPI encryption.
  abbrev pub NotGss : Event StartupRequest → Type 0
  NotGss (arrives gss_enc_request) = ⊥
  NotGss _ = Unit

  -- What the client will send, who it is, and the key cache are left alone.
  abbrev pub Negotiates : World → World → Type 0
  Negotiates w w' =
      (w'.conn.inbox ≡ w.conn.inbox) × (w'.conn.id ≡ w.conn.id) × (w'.validator ≡ w.validator)

  written-Negotiates :
      (w : World) (r : Bool × Sink Packet) (t : World)
      → Negotiates w t
      → Negotiates w (written r t).1
  written-Negotiates w (true, k) t h = h
  written-Negotiates w (false, k) t h = h

  upgrade-Negotiates :
      (w : World) (b : Bool) (t : World) → Negotiates w t → Negotiates w (upgrade env b t).1
  upgrade-Negotiates w true t h = h
  upgrade-Negotiates w false t h = h

  answer_ssl-Negotiates :
      (b : Bool) (later : ℕ) (w : World) → Negotiates w (answer_ssl env b later w).1
  unfolding answer_ssl write
  answer_ssl-Negotiates false later w =
      written-Negotiates w (send (byte b'N') w.conn.client) w (refl, refl, refl)
  answer_ssl-Negotiates true later w =
      let first : Outcome (Unit {0}) × World = written (send (byte b'S') w.conn.client) w in
      let h : Negotiates w first.1 =
        written-Negotiates w (send (byte b'S') w.conn.client) w (refl, refl, refl) in
      continue-Keeps (Negotiates w) first.0 (λ _ w₂. upgrade env (env.handshakes later) w₂) first.1
        h (λ _ _. upgrade-Negotiates w (env.handshakes later) first.1 h)

  -- One of the requests is the StartupMessage of the session.
  pub record IsStarted (requests : List (Event StartupRequest)) (w w' : World) : Type 0 where
    pub parameters : Map Text Text
    pub earlier : List (Event StartupRequest)
    pub later : List (Event StartupRequest)
    pub requests_eq : requests ≡ earlier ++ arrives (startup parameters) ∷ later
    pub before : World
    pub negotiated : Negotiates w before
    pub session : IsSession env parameters before w'

  IsStarted-ssl_request :
      (rest : List (Event StartupRequest)) (u w w' : World)
      → Negotiates u w
      → IsStarted rest w w'
      → IsStarted (arrives ssl_request ∷ rest) u w'
  IsStarted-ssl_request rest u w w' (i, d, v) s = record {
    parameters = s.parameters;
    earlier = arrives ssl_request ∷ s.earlier;
    later = s.later;
    requests_eq = ap (λ x. arrives ssl_request ∷ x) s.requests_eq;
    before = s.before;
    negotiated = (s.negotiated.0 ∙ i, s.negotiated.1 ∙ d, s.negotiated.2 ∙ v);
    session = s.session;
  }

  startup_loop-IsStarted :
      (requests : List (Event StartupRequest)) (w w' : World)
      → All NotGss requests
      → startup_loop env requests w ≡ (ok tt, w')
      → IsStarted requests w w'
  unfolding startup_loop handle_cancel
  startup_loop-IsStarted [] w w' n h = absurd (ground arith)
  startup_loop-IsStarted (lost ∷ rest) w w' n h = absurd (ground arith)
  startup_loop-IsStarted (arrives (startup parameters) ∷ rest) w w' n h = record {
    parameters = parameters;
    earlier = [];
    later = rest;
    requests_eq = refl;
    before = left rest w;
    negotiated = (refl, refl, refl);
    session = start_session-IsSession env parameters (left rest w) w' h;
  }
  startup_loop-IsStarted (arrives ssl_request ∷ rest) w w' (_, n) h =
      let r = answer_ssl env w.conn.has_tls (length rest) (left rest w) in
      let (_, a, h₁) = continue-ok r.0 _ r.1 w' tt h in
      IsStarted-ssl_request rest w r.1 w'
        (answer_ssl-Negotiates w.conn.has_tls (length rest) (left rest w))
        (startup_loop-IsStarted rest r.1 w' n h₁)
  startup_loop-IsStarted (arrives (cancel_request k) ∷ rest) w w' n h =
      absurd (send_cancel-fails _ k (left rest w) w' h)
  startup_loop-IsStarted (arrives gss_enc_request ∷ rest) w w' (n, _) h = absurd n

  pub handle_startup_message-IsStarted :
      (w w' : World)
      → All NotGss w.conn.requests
      → handle_startup_message env w ≡ (ok tt, w')
      → IsStarted w.conn.requests w w'
  unfolding handle_startup_message
  handle_startup_message-IsStarted w w' n h = startup_loop-IsStarted w.conn.requests w w' n h
