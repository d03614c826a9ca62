-- ===== src/Proxy/Greeting.antt =====
-- What a startup that succeeds has established, and what the other requests lead to.
use gprxy.Common.{
  continue-ok, ◌≡◌, ◌≢◌, refl, ap, ◌∙◌, Bool, true, false, some, [], ◌∷◌, ◌++◌, append_assoc, arith,
  Text, Text_eq, codes, Map, lookup, lookup-insert_self, Sink, send, send-sent_ok, Outcome, ok, err,
  panics, blocks, continue, Act, ℕ_eq,
}
use gprxy.Protocol.{BackendKeyData, backend_key_data, ready_for_query, Packet, message}
use gprxy.Auth.{send_error_to_client}
use gprxy.Server.{make_cancel_key, register_connection, get_connection_for_cancel_request}
use gprxy.Pool.{Manager}
use gprxy.Auth.{Attempt, authenticate_user}
use gprxy.Auth.Success.{IsAdmitted, authenticate_user-IsAdmitted}
use gprxy.Proxy.State.{PoolConn, World, Env}
use gprxy.Proxy.Startup.{
  or_empty, written, write, tell_error, authenticate, connected, connect_backend, register,
  pool_key, settled, finish_startup, or_unavailable, keyed, start_session,
}

-- A step that succeeds and the state that it leaves.
abbrev Ends : {A : Type 0} → Outcome A × World → A → World → Type 0
Ends r a w = r ≡ (ok a, w)

-- From `w` to `w'` the client got the key of the pool connection `p` and ReadyForQuery, and the
-- connection was registered under that key.
pub record IsGreeted (p : PoolConn) (w w' : World) : Type 0 where
  pub pool : w'.conn.pool_conn ≡ w.conn.pool_conn
  pub key : w'.conn.key ≡ some (pool_key p)
  pub seen :
      w'.conn.client.sent
      ≡ w.conn.client.sent
        ++ message (backend_key_data (pool_key p)) ∷ message (ready_for_query b'I') ∷ []
  pub known : get_connection_for_cancel_request p.process_id p.secret_key w'.server ≡ some w.conn.id

abbrev after_write : Packet → World → World
after_write p w = record w { conn = record (w.conn) { client = (send p w.conn.client).1 } }

-- A write that lets the function go on.
write-then :
    (p : Packet) (f : Unit {0} → Act World (Unit {0})) (w w' : World)
    → continue (write p w).0 f (write p w).1 ≡ (ok tt, w')
    → (f tt (after_write p w) ≡ (ok tt, w'))
      × ((after_write p w).conn.client.sent ≡ w.conn.client.sent ++ p ∷ [])
unfolding write
write-then p f w w' h = of_send (send p w.conn.client) refl h
  where
    of_send :
        (r : Bool × Sink Packet)
        → send p w.conn.client ≡ r
        → continue (written r w).0 f (written r w).1 ≡ (ok tt, w')
        → (f tt (after_write p w) ≡ (ok tt, w'))
          × ((after_write p w).conn.client.sent ≡ w.conn.client.sent ++ p ∷ [])
    of_send (true, k) e g = (rw e g, send-sent_ok p w.conn.client (ap (λ x. x.0) e))
    of_send (false, k) e g = absurd (ground arith)

connected-ok :
    (r : Outcome PoolConn × Manager) (w w' : World) (p : PoolConn)
    → connected r w ≡ (ok p, w')
    → (w'.conn.pool_conn ≡ some p) × (w'.conn.client ≡ w.conn.client) × (w'.conn.id ≡ w.conn.id)
connected-ok (ok q, m) w w' p h = ground arith
connected-ok (err e, m) w w' p h = absurd (ground arith)
connected-ok (panics, m) w w' p h = absurd (ground arith)
connected-ok (blocks, m) w w' p h = absurd (ground arith)

tell_error-fails : (msg : Text) (w w' : World) → tell_error msg w ≢ (ok tt, w')
unfolding tell_error send_error_to_client
tell_error-fails msg w w' h = ground arith

module _ {Conv : Type 0} (env : Env Conv) where
  register-ok :
      (p : PoolConn) (w w' : World)
      → register env (pool_key p) w ≡ (ok tt, w')
      → (w'.conn ≡ w.conn)
        × (get_connection_for_cancel_request p.process_id p.secret_key w'.server ≡ some w.conn.id)
  unfolding register register_connection get_connection_for_cancel_request
  register-ok p w w' h = ground (
    arith,
    lookup-insert_self (make_cancel_key p.process_id p.secret_key) w.conn.id
        w.server.active_connections,
  )

  finish_startup-IsGreeted :
      (user database : Text) (p : PoolConn) (w w' : World)
      → finish_startup env user database p w ≡ (ok tt, w')
      → IsGreeted p w w'
  unfolding finish_startup
  finish_startup-IsGreeted user database p w w' h =
      let w₀ : World = settled user database p w in
      let key : Packet = message (backend_key_data (pool_key p)) in
      let ready : Packet = message (ready_for_query b'I') in
      let (h₁, seen₁) = write-then key _ w₀ w' h in
      let w₁ : World = after_write key w₀ in
      let (h₂, seen₂) = write-then ready (λ _. register env (pool_key p)) w₁ w' h₁ in
      let w₂ : World = after_write ready w₁ in
      let (same, known) = register-ok p w₂ w' h₂ in
      record {
        pool = ap (λ c. c.pool_conn) same;
        key = ap (λ c. c.key) same;
        seen =
            ap (λ c. c.client.sent) same
            ∙ seen₂
            ∙ ap (λ x. x ++ ready ∷ []) seen₁
            ∙ append_assoc w.conn.client.sent (key ∷ []) (ready ∷ []);
        known = known;
      }

  -- What `AuthenticateUser` starts from.
  abbrev pub attempt : Map Text Text → World → Attempt
  attempt parameters w = record {
    inbox = w.conn.inbox;
    client = w.conn.client;
    backend = env.auth_sink;
    parameters = parameters;
    validator = w.validator;
  }

  -- The connection was authenticated by `AuthenticateUser`, holds a pool connection, and was
  -- greeted under its key.
  pub record IsSession (parameters : Map Text Text) (w w' : World) : Type 0 where
    pub auth_key : BackendKeyData
    pub admitted : World
    pub authentic :
        authenticate env parameters (or_empty (lookup (codes "user") parameters)) w
        ≡ (ok auth_key, admitted)
    pub dialled : env.dialled ≡ true
    pub outcome : Attempt
    pub left_validator : admitted.validator ≡ outcome.validator
    pub entitled :
        IsAdmitted env.scram env.md5_hex env.wide env.parser env.mapper env.round env.now env.script
          (or_empty (lookup (codes "user") parameters))
          (attempt parameters w)
          outcome
          auth_key
    pub pool : PoolConn
    pub held : w'.conn.pool_conn ≡ some pool
    pub key : w'.conn.key ≡ some (pool_key pool)
    pub seen :
        w'.conn.client.sent
        ≡ admitted.conn.client.sent
          ++ message (backend_key_data (pool_key pool)) ∷ message (ready_for_query b'I') ∷ []
    pub known :
        get_connection_for_cancel_request pool.process_id pool.secret_key w'.server
        ≡ some admitted.conn.id

  or_unavailable-ok :
      (user database : Text) (r : Outcome PoolConn) (w w' : World)
      → or_unavailable env user database r w ≡ (ok tt, w')
      → (p : PoolConn) × (r ≡ ok p) × IsGreeted p w w'
  or_unavailable-ok user database (ok p) w w' h =
      (p, refl, finish_startup-IsGreeted user database p w w' h)
  or_unavailable-ok user database (err e) w w' h = absurd (tell_error-fails _ w w' h)
  or_unavailable-ok user database panics w w' h = absurd (ground arith)
  or_unavailable-ok user database blocks w w' h = absurd (ground arith)

  pub start_session-IsSession :
      (parameters : Map Text Text) (w w' : World)
      → start_session env parameters w ≡ (ok tt, w')
      → IsSession parameters w w'
  unfolding start_session connect_backend authenticate
  start_session-IsSession parameters w w' h =
      let user = or_empty (lookup (codes "user") parameters) in
      let database = or_empty (lookup (codes "database") parameters) in
      let r = authenticate env parameters user w in
      let (k, a, h₁) = continue-ok r.0 _ r.1 w' tt h in
      let w₂ : World = keyed k r.1 in
      let q = connect_backend env database user w₂ in
      let (p, b, g) = or_unavailable-ok user database q.0 q.1 w' h₁ in
      let (held, client, id) = connected-ok _ w₂ q.1 p (ap (λ x. (x, q.1)) b) in
      let u =
        authenticate_user env.scram env.md5_hex env.wide env.parser env.mapper env.round env.now
          env.dialled env.script user (attempt parameters w) in
      let (dialled, entitled) =
        authenticate_user-IsAdmitted env.scram env.md5_hex env.wide env.parser env.mapper env.round
          env.now env.dialled env.script user (attempt parameters w) u.1 k (ap (λ x. (x, u.1)) a) in
      record {
        auth_key = k;
        dialled = dialled;
        outcome = u.1;
        left_validator = refl;
        entitled = entitled;
        admitted = r.1;
        authentic = ap (λ x. (x, r.1)) a;
        pool = p;
        held = g.pool ∙ held;
        key = g.key;
        seen =
            g.seen
            ∙ ap
                (λ x.
                  x.sent
                  ++ message (backend_key_data (pool_key p)) ∷ message (ready_for_query b'I') ∷ [])
                client;
        known = g.known ∙ ap some id;
      }
