-- ===== src/Proxy/Startup.antt =====
-- internal/proxy/startup.go, errors.go, and `connectBackend` of connection.go.
use gprxy.Common.{
  ℕ, Bool, true, false, Option, none, some, List, [], ◌∷◌, length, Text, Text_eq, codes, Map,
  lookup, Event, arrives, lost, Sink, send, Outcome, ok, err, panics, blocks, Act, continue,
  receive_failed, send_failed, tls_handshake_failed, unknown_cancel_target, cancel_done,
}
use gprxy.Protocol.{
  BackendKeyData, backend_key_data, ready_for_query, StartupRequest, startup, ssl_request,
  gss_enc_request, cancel_request, Packet, message, byte,
}
use gprxy.Config.{build_connection_string}
use gprxy.Auth.{Attempt, send_error_to_client, authenticate_user}
use gprxy.Pool.{Manager, acquire_connection}
use gprxy.Server.{Server, register_connection, get_connection_for_cancel_request}
use gprxy.Proxy.State.{PoolConn, World, Env}
use gprxy.Proxy.Cancel.{send_cancel}

abbrev pub or_empty : Option Text → Text
or_empty none = []
or_empty (some s) = s

-- A write to the client, with the error if it fails.
abbrev pub written : Bool × Sink Packet → Act World (Unit {0})
written (true, k) w = (ok tt, record w { conn = record (w.conn) { client = k } })
written (false, k) w = (err send_failed, record w { conn = record (w.conn) { client = k } })

unfoldable pub write : Packet → Act World (Unit {0})
write p w = written (send p w.conn.client) w

abbrev pub told_client : Outcome (Unit {0}) × Sink Packet → Act World (Unit {0})
told_client (r, k) w = (r, record w { conn = record (w.conn) { client = k } })

unfoldable pub tell_error : Text → Act World (Unit {0})
tell_error msg w = told_client (send_error_to_client msg w.conn.client) w

abbrev pub authenticated : Outcome BackendKeyData × Attempt → World → Outcome BackendKeyData × World
authenticated (r, t) w = (
  r,
  record w {
    conn = record (w.conn) { inbox = t.inbox; client = t.client };
    validator = t.validator;
  },
)

abbrev pub connected : Outcome PoolConn × Manager → Act World PoolConn
connected (ok p, m) w =
    (ok p, record w { conn = record (w.conn) { pool_conn = some p }; manager = m })
connected (r, m) w = (r, record w { manager = m })

abbrev pub registered : Outcome (Unit {0}) × Server → Act World (Unit {0})
registered (r, s) w = (r, record w { server = s })

abbrev pub pool_key : PoolConn → BackendKeyData
pool_key p = record { process_id = p.process_id; secret_key = p.secret_key }

abbrev pub settled : Text → Text → PoolConn → World → World
settled user database p w = record w {
  conn = record (w.conn) { user = user; db = database; key = some (pool_key p) };
}

-- The key of the temporary connection stands until that of the pool connection replaces it.
abbrev pub keyed : BackendKeyData → World → World
keyed k w = record w { conn = record (w.conn) { key = some k } }

abbrev pub cancelled : Outcome (Unit {0}) × List (List ℕ) → Act World (Unit {0})
cancelled (ok _, sent) w = (err cancel_done, record w { cancels = sent })
cancelled (r, sent) w = (r, record w { cancels = sent })

abbrev pub left : List (Event StartupRequest) → World → World
left rest w = record w { conn = record (w.conn) { requests = rest } }

module _ {Conv : Type 0} (env : Env Conv) where
  unfoldable pub authenticate : Map Text Text → Text → Act World BackendKeyData
  authenticate parameters user w =
      authenticated
        (authenticate_user env.scram env.md5_hex env.wide env.parser env.mapper env.round env.now
          env.dialled env.script user
          (record {
            inbox = w.conn.inbox;
            client = w.conn.client;
            backend = env.auth_sink;
            parameters = parameters;
            validator = w.validator;
          }))
        w

  unfoldable pub connect_backend : Text → Text → Act World PoolConn
  unfolding build_connection_string
  connect_backend database user w =
      connected
        (acquire_connection env.acquiring user database
          (build_connection_string w.conn.config database) w.manager)
        w

  unfoldable pub register : BackendKeyData → Act World (Unit {0})
  register k w =
      registered (register_connection env.usable k.process_id k.secret_key w.conn.id w.server) w

  -- With the pool connection at hand: its key, ReadyForQuery and the registration.
  unfoldable pub finish_startup : Text → Text → PoolConn → Act World (Unit {0})
  unfolding write register
  finish_startup user database p w =
      let (r, w₁) = write (message (backend_key_data (pool_key p))) (settled user database p w) in
      continue r
        (λ _ w₂.
          let (r', w₃) = write (message (ready_for_query b'I')) w₂ in
          continue r' (λ _. register (pool_key p)) w₃)
        w₁

  abbrev pub or_unavailable : Text → Text → Outcome PoolConn → Act World (Unit {0})
  or_unavailable user database (ok p) w = finish_startup user database p w
  or_unavailable user database (err e) w = tell_error (codes "Database unavailable") w
  or_unavailable user database panics w = (panics, w)
  or_unavailable user database blocks w = (blocks, w)

  -- The case of a StartupMessage.
  unfoldable pub start_session : Map Text Text → Act World (Unit {0})
  unfolding authenticate connect_backend finish_startup tell_error
  start_session parameters w =
      let user = or_empty (lookup (codes "user") parameters) in
      let database = or_empty (lookup (codes "database") parameters) in
      let (r, w₁) = authenticate parameters user w in
      continue r
        (λ k w₂.
          let (r', w₃) = connect_backend database user (keyed k w₂) in
          or_unavailable user database r' w₃)
        w₁

  abbrev pub cancel_target : Option ℕ → BackendKeyData → Act World (Unit {0})
  cancel_target none k w = (err unknown_cancel_target, w)
  cancel_target (some c) k w =
      cancelled (send_cancel env.cancel_dialled env.cancel_written k w.cancels) w

  -- The case of a CancelRequest.
  unfoldable pub handle_cancel : BackendKeyData → Act World (Unit {0})
  handle_cancel k w =
      cancel_target (get_connection_for_cancel_request k.process_id k.secret_key w.server) k w

  abbrev pub upgrade : Bool → World → Outcome (Unit {0}) × World
  upgrade true w = (ok tt, record w { conn = record (w.conn) { secure = true } })
  upgrade false w = (err tls_handshake_failed, w)

  -- The case of an SSLRequest up to the recursive call.
  unfoldable pub answer_ssl : Bool → ℕ → Act World (Unit {0})
  unfolding write
  answer_ssl false later w = write (byte b'N') w
  answer_ssl true later w =
      let (r, w₁) = write (byte b'S') w in continue r (λ _ w₂. upgrade (env.handshakes later) w₂) w₁

  -- `handleStartupMessage`, over the startup requests of the client.
  unfoldable pub startup_loop : List (Event StartupRequest) → Act World (Unit {0})
  unfolding start_session handle_cancel answer_ssl
  startup_loop [] w = (blocks, w)
  startup_loop (lost ∷ rest) w = (err receive_failed, left rest w)
  startup_loop (arrives (startup parameters) ∷ rest) w = start_session parameters (left rest w)
  startup_loop (arrives ssl_request ∷ rest) w =
      let (r, w₁) = answer_ssl w.conn.has_tls (length rest) (left rest w) in
      continue r (λ _ w₂. startup_loop rest w₂) w₁
  startup_loop (arrives (cancel_request k) ∷ rest) w = handle_cancel k (left rest w)
  -- No case of the switch: the function returns as after a startup.
  startup_loop (arrives gss_enc_request ∷ rest) w = (ok tt, left rest w)

  unfoldable pub handle_startup_message : Act World (Unit {0})
  unfolding startup_loop
  handle_startup_message w = startup_loop w.conn.requests w
