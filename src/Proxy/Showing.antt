-- ===== src/Proxy/Showing.antt =====
-- internal/proxy: what the client sees on one connection, from its startup to its end.
use gprxy.Proxy.Serving.{
  On, Shown, Unstarted, go_on-Leaves, message_loop-Serving, message_loop-Unstarted,
  written-Unstarted, write-Leaves, tell_error-Shown,
}
use mathlib.Core.Path.{subst}
use gprxy.Common.{
  ap, ℕ, ℕ_eq, ◌≡◌, refl, sym, ◌∙◌, ◌⊎◌, Bool, true, false, inl, inr, Bool-cases, Option, none,
  some, List, [], ◌∷◌, Text, Text_eq, codes, Map, lookup, insert, length, Event, arrives, lost,
  send, Outcome, ok, err, panics, blocks,
}
use gprxy.Protocol.{
  BackendKeyData, backend_key_data, ready_for_query, StartupRequest, startup, ssl_request,
  gss_enc_request, cancel_request, message, byte,
}
use gprxy.Protocol.Stages.{
  opening, authenticating, key_sent, serving, stage_after, Transcript, start, Conforms, send-Moves,
  Leaves, continue-Leaves,
}
use gprxy.Auth.{Attempt}
use gprxy.Auth.Showing.{At, Seen, authenticate_user-Leaves}
use gprxy.Pool.{Manager}
use gprxy.Server.{
  all_usable, make_cancel_key, register_connection, get_connection_for_cancel_request,
}
use gprxy.Proxy.State.{PoolConn, World, Env}
use gprxy.Proxy.Cancel.{send_cancel}
use gprxy.Proxy.Startup.{
  or_empty, written, write, authenticated, authenticate, connected, connect_backend, register,
  pool_key, settled, finish_startup, or_unavailable, keyed, start_session, cancelled, cancel_target,
  handle_cancel, upgrade, answer_ssl, left, startup_loop, handle_startup_message,
}
use gprxy.Proxy.{
  go_on, message_loop, full_reset, with_pool_conn, after_reset, give_back, deferred, release,
  unregister, cleanup, closing, handle_connection,
}

module _ {Conv : Type 0} (env : Env Conv) where
  register-Leaves :
      (k : BackendKeyData) (w : World) → On serving w → Leaves (On serving) Shown (register env k w)
  unfolding register register_connection
  register-Leaves k w h =
      elim (Bool-cases (
        all_usable env.usable (
          insert (make_cancel_key k.process_id k.secret_key) w.conn.id
            w.server.active_connections))) [ inl e ↦ rw e h | inr e ↦ rw e (serving, h) ]

  finish_startup-Leaves :
      (user database : Text) (p : PoolConn) (w : World)
      → On authenticating w
      → Leaves (On serving) Shown (finish_startup env user database p w)
  unfolding finish_startup stage_after
  finish_startup-Leaves user database p w h =
      let w₀ : World = settled user database p w in
      let first = write (message (backend_key_data (pool_key p))) w₀ in
      continue-Leaves (On key_sent) (On serving) Shown first.0 _ first.1
        (write-Leaves authenticating key_sent (message (backend_key_data (pool_key p))) w₀ h refl)
        (λ _ h₁.
          let second = write (message (ready_for_query b'I')) first.1 in
          continue-Leaves (On serving) (On serving) Shown second.0 _ second.1
            (write-Leaves key_sent serving (message (ready_for_query b'I')) first.1 h₁ refl)
            (λ _ h₂. register-Leaves (pool_key p) second.1 h₂))

  or_unavailable-Leaves :
      (user database : Text) (r : Outcome PoolConn) (w : World)
      → On authenticating w
      → Leaves (On serving) Shown (or_unavailable env user database r w)
  or_unavailable-Leaves user database (ok p) w h = finish_startup-Leaves user database p w h
  or_unavailable-Leaves user database (err e) w h = tell_error-Shown (On serving) _ w h
  or_unavailable-Leaves user database panics w h = (authenticating, h)
  or_unavailable-Leaves user database blocks w h = (authenticating, h)

  connected-client :
      (r : Outcome PoolConn × Manager) (w : World)
      → On authenticating w
      → On authenticating (connected r w).1
  connected-client (ok p, m) w h = h
  connected-client (err e, m) w h = h
  connected-client (panics, m) w h = h
  connected-client (blocks, m) w h = h

  authenticated-Leaves :
      (r : Outcome BackendKeyData × Attempt) (w : World)
      → Leaves (At authenticating) Seen r
      → Leaves (On authenticating) Shown (authenticated r w)
  authenticated-Leaves (ok k, t) w h = h
  authenticated-Leaves (err e, t) w h = h
  authenticated-Leaves (panics, t) w h = h
  authenticated-Leaves (blocks, t) w h = h

  start_session-Leaves :
      (parameters : Map Text Text) (w : World)
      → On opening w
      → Leaves (On serving) Shown (start_session env parameters w)
  unfolding start_session authenticate connect_backend
  start_session-Leaves parameters w h =
      let user = or_empty (lookup (codes "user") parameters) in
      let database = or_empty (lookup (codes "database") parameters) in
      let first = authenticate env parameters user w in
      continue-Leaves (On authenticating) (On serving) Shown first.0 _ first.1
        (authenticated-Leaves _ w (
          authenticate_user-Leaves env.scram env.md5_hex env.wide env.parser env.mapper env.round
            env.now env.dialled env.script user
            (record {
              inbox = w.conn.inbox;
              client = w.conn.client;
              backend = env.auth_sink;
              parameters = parameters;
              validator = w.validator;
            })
            h))
        (λ k h₁.
          let second = connect_backend env database user (keyed k first.1) in
          or_unavailable-Leaves user database second.0 second.1
            (connected-client _ (keyed k first.1) h₁))

  cancelled-Leaves :
      (P : World → Type 0) (dialled written : Bool) (k : BackendKeyData) (w : World)
      → Shown w
      → Leaves P Shown (cancelled (send_cancel dialled written k w.cancels) w)
  unfolding send_cancel
  cancelled-Leaves P false written k w h = h
  cancelled-Leaves P true false k w h = h
  cancelled-Leaves P true true k w h = h

  cancel_target-Leaves :
      (P : World → Type 0) (o : Option ℕ) (k : BackendKeyData) (w : World)
      → Shown w
      → Leaves P Shown (cancel_target env o k w)
  cancel_target-Leaves P none k w h = h
  cancel_target-Leaves P (some c) k w h =
      cancelled-Leaves P env.cancel_dialled env.cancel_written k w h

  handle_cancel-Leaves :
      (P : World → Type 0) (k : BackendKeyData) (w : World)
      → Shown w
      → Leaves P Shown (handle_cancel env k w)
  unfolding handle_cancel
  handle_cancel-Leaves P k w h =
      cancel_target-Leaves P (get_connection_for_cancel_request k.process_id k.secret_key w.server)
        k w h

  upgrade-Leaves : (b : Bool) (w : World) → Unstarted w → Leaves Unstarted Shown (upgrade env b w)
  upgrade-Leaves true w h = h
  upgrade-Leaves false w (h, e) = (opening, h)

  answer_ssl-Leaves :
      (b : Bool) (later : ℕ) (w : World)
      → Unstarted w
      → Leaves Unstarted Shown (answer_ssl env b later w)
  unfolding answer_ssl write stage_after
  answer_ssl-Leaves false later w (h, e) =
      written-Unstarted (send (byte b'N') w.conn.client) w
        (send-Moves opening opening (byte b'N') w.conn.client h refl) e
  answer_ssl-Leaves true later w (h, e) =
      let first = written (send (byte b'S') w.conn.client) w in
      continue-Leaves Unstarted Unstarted Shown first.0 _ first.1
        (written-Unstarted (send (byte b'S') w.conn.client) w
          (send-Moves opening opening (byte b'S') w.conn.client h refl) e)
        (λ _ h₁. upgrade-Leaves (env.handshakes later) first.1 h₁)

  begun :
      (r : Outcome (Unit {0}) × World)
      → Leaves (On serving) Shown r
      → Leaves (λ w'. Unstarted w' ⊎ On serving w') Shown r
  begun (ok _, w) h = inr h
  begun (err e, w) h = h
  begun (panics, w) h = h
  begun (blocks, w) h = h

  startup_loop-Leaves :
      (requests : List (Event StartupRequest)) (w : World)
      → Unstarted w
      → Leaves (λ w'. Unstarted w' ⊎ On serving w') Shown (startup_loop env requests w)
  unfolding startup_loop
  startup_loop-Leaves [] w (h, e) = (opening, h)
  startup_loop-Leaves (lost ∷ rest) w (h, e) = (opening, h)
  startup_loop-Leaves (arrives (startup parameters) ∷ rest) w (h, e) =
      begun (start_session env parameters (left rest w))
        (start_session-Leaves parameters (left rest w) h)
  startup_loop-Leaves (arrives ssl_request ∷ rest) w h =
      let first = answer_ssl env w.conn.has_tls (length rest) (left rest w) in
      continue-Leaves Unstarted (λ w'. Unstarted w' ⊎ On serving w') Shown first.0 _ first.1
        (answer_ssl-Leaves w.conn.has_tls (length rest) (left rest w) h)
        (λ _ h₁. startup_loop-Leaves rest first.1 h₁)
  startup_loop-Leaves (arrives (cancel_request k) ∷ rest) w (h, e) =
      handle_cancel-Leaves (λ w'. Unstarted w' ⊎ On serving w') k (left rest w) (opening, h)
  startup_loop-Leaves (arrives gss_enc_request ∷ rest) w h = inl h

  unregister-client :
      (o : Option BackendKeyData) (w : World) → (unregister o w).conn.client ≡ w.conn.client
  unregister-client none w = refl
  unregister-client (some k) w = refl

  after_reset-client :
      (r : Outcome (Unit {0}) × PoolConn) (w : World)
      → (after_reset r w).1.conn.client ≡ w.conn.client
  after_reset-client (ok _, p) w = unregister-client w.conn.key (release (with_pool_conn p w))
  after_reset-client (err e, p) w = unregister-client w.conn.key (release (with_pool_conn p w))
  after_reset-client (panics, p) w = unregister-client w.conn.key (release (with_pool_conn p w))
  after_reset-client (blocks, p) w = refl

  give_back-client :
      (o : Option PoolConn) (w : World) → (give_back o w).1.conn.client ≡ w.conn.client
  give_back-client none w = unregister-client w.conn.key w
  give_back-client (some p) w = after_reset-client (full_reset p) w

  deferred-client :
      (c : Outcome (Unit {0})) (r : Outcome (Unit {0}) × World) → (deferred c r).1 ≡ r.1
  deferred-client c (ok _, w) = refl
  deferred-client c (err e, w) = refl
  deferred-client c (panics, w) = refl
  deferred-client c (blocks, w) = refl

  deferred-Shown : (c : Outcome (Unit {0})) (w : World) → Shown w → Shown (deferred c (cleanup w)).1
  unfolding cleanup
  deferred-Shown c w h =
      subst Conforms
        (sym (
          ap (λ t. t.conn.client) (deferred-client c (give_back w.conn.pool_conn w))
          ∙ give_back-client w.conn.pool_conn w))
        h

  closing-Shown : (r : Outcome (Unit {0}) × World) → Shown r.1 → Shown (closing r).1
  closing-Shown (ok u, w) h = deferred-Shown (ok u) w h
  closing-Shown (err e, w) h = deferred-Shown (err e) w h
  closing-Shown (panics, w) h = deferred-Shown panics w h
  closing-Shown (blocks, w) h = h

  served : (w : World) → Unstarted w ⊎ On serving w → Shown (message_loop w.conn.inbox w).1
  served w (inl h) = message_loop-Unstarted w.conn.inbox w h
  served w (inr h) = (serving, message_loop-Serving w.conn.inbox w h)

  -- The proxy implements the abstract protocol: whatever the peers send, and wherever a write, the
  -- authentication or the pool fails, what a client has seen of its connection is a transcript of
  -- the protocol. A connection starts with nothing sent, and without a pool connection.
  pub handle_connection-Conforms :
      (w : World)
      → w.conn.client.sent ≡ []
      → w.conn.pool_conn ≡ none
      → Conforms (handle_connection env w).1.conn.client
  unfolding handle_connection handle_startup_message
  handle_connection-Conforms w e p =
      let first = startup_loop env w.conn.requests w in
      closing-Shown (go_on first (λ w₁. message_loop w₁.conn.inbox w₁)) (
        go_on-Leaves (λ w'. Unstarted w' ⊎ On serving w') Shown first
          (λ w₁. message_loop w₁.conn.inbox w₁)
          (startup_loop-Leaves w.conn.requests w (subst (Transcript opening) (sym e) start, p))
          served)
