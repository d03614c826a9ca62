-- ===== src/Proxy/Ending.antt =====
-- internal/proxy/connection.go and startup.go: a connection comes to an end when no peer of it falls
-- silent.
use gprxy.Proxy.Leasing.{Responsive, connect_backend-Settles}
use mathlib.Core.Path.{subst}
use gprxy.Proxy.Cleanup.{Tidy, handle_connection-Tidy}
use gprxy.Proxy.Silence.{
  PoolCalm, PoolCloses-PoolCalm, Live-PoolCalm, continue-Settles, PoolCloses, Live, Settles,
  go_on-Settles, message_loop-Settles, write-Settles, tell_error-Settles,
}
use gprxy.Common.{
  ℕ, ℕ_eq, ◌≡◌, ◌≢◌, sym, insert, inl, inr, Bool-cases, Bool, true, false, Option, none, some, List,
  [], ◌∷◌, Text, Text_eq, codes, Map, lookup, length, Event, arrives, lost, Closes, Outcome, ok,
  err, panics, blocks,
}
use gprxy.Protocol.{
  BackendKeyData, backend_key_data, ready_for_query, StartupRequest, startup, ssl_request,
  gss_enc_request, cancel_request, message, byte,
}
use gprxy.Auth.{Attempt}
use gprxy.Auth.Ending.{Closing, authenticate_user-Closing}
use gprxy.Pool.{PoolKey_eq}
use gprxy.Server.{
  all_usable, make_cancel_key, register_connection, get_connection_for_cancel_request,
}
use gprxy.Proxy.State.{PoolConn, World, Env}
use gprxy.Proxy.Cancel.{send_cancel}
use gprxy.Proxy.Startup.{
  or_empty, written, write, authenticated, authenticate, connect_backend, register, pool_key,
  settled, finish_startup, or_unavailable, keyed, start_session, cancelled, cancel_target,
  handle_cancel, upgrade, answer_ssl, left, startup_loop, handle_startup_message,
}
use gprxy.Proxy.{go_on, message_loop, handle_connection}
use gprxy.Proxy.Returning.{closing-ends}

module _ {Conv : Type 0} (env : Env Conv) where
  register-Settles : (k : BackendKeyData) (w : World) → Live w → Settles (register env k w)
  unfolding register register_connection
  register-Settles k w h =
      elim (Bool-cases (
        all_usable env.usable (
          insert (make_cancel_key k.process_id k.secret_key) w.conn.id
            w.server.active_connections))) [ inl e ↦ rw e h | inr e ↦ rw e (Live-PoolCalm w h) ]

  finish_startup-Settles :
      (user database : Text) (p : PoolConn) (w : World)
      → Live w
      → Settles (finish_startup env user database p w)
  unfolding finish_startup
  finish_startup-Settles user database p w h =
      let w₀ : World = settled user database p w in
      let first = write (message (backend_key_data (pool_key p))) w₀ in
      continue-Settles first.0 _ first.1
        (write-Settles (message (backend_key_data (pool_key p))) w₀ h)
        (λ _ h₁.
          let second = write (message (ready_for_query b'I')) first.1 in
          continue-Settles second.0 _ second.1
            (write-Settles (message (ready_for_query b'I')) first.1 h₁)
            (λ _ h₂. register-Settles (pool_key p) second.1 h₂))

  or_unavailable-Settles :
      (user database : Text) (r : Outcome PoolConn) (w : World)
      → Settles (r, w)
      → Settles (or_unavailable env user database r w)
  or_unavailable-Settles user database (ok p) w h = finish_startup-Settles user database p w h
  or_unavailable-Settles user database (err e) w h = tell_error-Settles _ w h
  or_unavailable-Settles user database panics w h = h
  or_unavailable-Settles user database blocks w h = h

  authenticated-Settles :
      (r : Outcome BackendKeyData × Attempt) (w : World)
      → PoolCloses w.conn.pool_conn
      → Closing r
      → Settles (authenticated r w)
  authenticated-Settles (ok k, t) w d h = (h, d)
  authenticated-Settles (err e, t) w d h = PoolCloses-PoolCalm w.conn.pool_conn d
  authenticated-Settles (panics, t) w d h = PoolCloses-PoolCalm w.conn.pool_conn d
  authenticated-Settles (blocks, t) w d h = h

  start_session-Settles :
      (parameters : Map Text Text) (w : World)
      → Closes env.script
      → Responsive env
      → Live w
      → Settles (start_session env parameters w)
  unfolding start_session authenticate
  start_session-Settles parameters w c h l =
      let user = or_empty (lookup (codes "user") parameters) in
      let database = or_empty (lookup (codes "database") parameters) in
      let first = authenticate env parameters user w in
      continue-Settles first.0 _ first.1
        (authenticated-Settles _ w l.1 (
          authenticate_user-Closing env.scram env.md5_hex env.wide env.parser env.mapper env.round
            env.now env.dialled env.script user
            (record {
              inbox = w.conn.inbox;
              client = w.conn.client;
              backend = env.auth_sink;
              parameters = parameters;
              validator = w.validator;
            })
            l.0 c))
        (λ k l₁.
          let second = connect_backend env database user (keyed k first.1) in
          or_unavailable-Settles user database second.0 second.1
            (connect_backend-Settles env database user (keyed k first.1) h l₁))

  cancelled-Settles :
      (dialled written : Bool) (k : BackendKeyData) (w : World)
      → PoolCalm w.conn.pool_conn
      → Settles (cancelled (send_cancel dialled written k w.cancels) w)
  unfolding send_cancel
  cancelled-Settles false written k w h = h
  cancelled-Settles true false k w h = h
  cancelled-Settles true true k w h = h

  cancel_target-Settles :
      (o : Option ℕ) (k : BackendKeyData) (w : World)
      → PoolCalm w.conn.pool_conn
      → Settles (cancel_target env o k w)
  cancel_target-Settles none k w h = h
  cancel_target-Settles (some c) k w h =
      cancelled-Settles env.cancel_dialled env.cancel_written k w h

  handle_cancel-Settles :
      (k : BackendKeyData) (w : World) → PoolCalm w.conn.pool_conn → Settles (handle_cancel env k w)
  unfolding handle_cancel
  handle_cancel-Settles k w h =
      cancel_target-Settles (get_connection_for_cancel_request k.process_id k.secret_key w.server) k
        w h

  upgrade-Settles : (b : Bool) (w : World) → Live w → Settles (upgrade env b w)
  upgrade-Settles true w l = l
  upgrade-Settles false w l = Live-PoolCalm w l

  answer_ssl-Settles :
      (b : Bool) (later : ℕ) (w : World) → Live w → Settles (answer_ssl env b later w)
  unfolding answer_ssl
  answer_ssl-Settles false later w l = write-Settles (byte b'N') w l
  answer_ssl-Settles true later w l =
      continue-Settles (write (byte b'S') w).0 _ (write (byte b'S') w).1
        (write-Settles (byte b'S') w l)
        (λ _ l₁. upgrade-Settles (env.handshakes later) (write (byte b'S') w).1 l₁)

  startup_loop-Settles :
      (requests : List (Event StartupRequest)) (w : World)
      → Closes requests
      → Closes env.script
      → Responsive env
      → Live w
      → Settles (startup_loop env requests w)
  unfolding startup_loop
  startup_loop-Settles [] w r c h l = r
  startup_loop-Settles (lost ∷ rest) w r c h l = Live-PoolCalm (left rest w) l
  startup_loop-Settles (arrives (startup parameters) ∷ rest) w r c h l =
      start_session-Settles parameters (left rest w) c h l
  startup_loop-Settles (arrives ssl_request ∷ rest) w r c h l =
      let first = answer_ssl env w.conn.has_tls (length rest) (left rest w) in
      continue-Settles first.0 _ first.1
        (answer_ssl-Settles w.conn.has_tls (length rest) (left rest w) l)
        (λ _ l₁. startup_loop-Settles rest first.1 r c h l₁)
  startup_loop-Settles (arrives (cancel_request k) ∷ rest) w r c h l =
      handle_cancel-Settles k (left rest w) (Live-PoolCalm (left rest w) l)
  startup_loop-Settles (arrives gss_enc_request ∷ rest) w r c h l = l

  -- When nobody falls silent on a connection, and the pool does not keep it waiting, it comes to its
  -- end, whatever the messages are, and leaves as many pool connections out as before it, and no
  -- entry of the registry under its key. That nobody falls silent says: the startup requests and the
  -- messages of the client, those of PostgreSQL on the temporary connection, and those on each
  -- connection that the pool may hand out, come to an end with a lost connection, and the ping and
  -- the two commands of the deferred function return. A connection starts without a pool connection.
  pub handle_connection-ends :
      (w : World)
      → w.conn.pool_conn ≡ none
      → Closes w.conn.requests
      → Closes w.conn.inbox
      → Closes env.script
      → Responsive env
      → ((handle_connection env w).0 ≢ blocks) × Tidy w.manager.leased (handle_connection env w).1
  unfolding handle_connection handle_startup_message
  handle_connection-ends w e r i c h =
      let first = startup_loop env w.conn.requests w in
      let run = go_on first (λ w₁. message_loop w₁.conn.inbox w₁) in
      let ends = closing-ends run (
        go_on-Settles first (λ w₁. message_loop w₁.conn.inbox w₁)
          (startup_loop-Settles w.conn.requests w r c h (i, subst PoolCloses (sym e) tt))
          (λ w₁ l₁. message_loop-Settles w₁.conn.inbox w₁ l₁.0 l₁.1)) in
      (ends, handle_connection-Tidy env w e ends)
