-- ===== src/Proxy/Reaching.antt =====
-- A cancel request with the key that a client was given, from internal/proxy/startup.go over the
-- registry of internal/proxy/server.go to PostgreSQL.
use mathlib.Core.Path.{subst}
use gprxy.Common.{
  ℕ, ◌≡◌, refl, sym, ap, ◌∙◌, Bool, true, Option, some, List, [], ◌∷◌, ◌++◌, arith, All, ok, err,
  cancel_done, ℕ_eq,
}
use gprxy.Protocol.{BackendKeyData, backend_key_data, ready_for_query, Packet, message}
use gprxy.Server.{get_connection_for_cancel_request}
use gprxy.Server.Keys.{IsU32}
use gprxy.Server.Traffic.{Call, calls, Elsewhere, get_connection-calls}
use gprxy.Proxy.State.{PoolConn, World, Env}
use gprxy.Proxy.Cancel.{cancel_message, send_cancel}
use gprxy.Proxy.Startup.{pool_key, cancel_target, handle_cancel, handle_startup_message}
use gprxy.Proxy.Opening.{NotGss, handle_startup_message-IsStarted}

some_path : (p q : PoolConn) → ◌≡◌ {A = Option PoolConn} (some p) (some q) → p ≡ q
some_path p q e = ground arith

module _ {Conv : Type 0} (env env' : Env Conv) where
  cancel_target-reaches :
      (k : BackendKeyData) (o : Option ℕ) (c : ℕ) (v : World)
      → o ≡ some c
      → env'.cancel_dialled ≡ true
      → env'.cancel_written ≡ true
      → cancel_target env' o k v
        ≡ (err cancel_done, record v { cancels = v.cancels ++ cancel_message k ∷ [] })
  unfolding send_cancel
  cancel_target-reaches k o c v e d w = rw (e, d, w) refl

  -- A client that got to the query loop, by no request for GSSAPI encryption, was told the key of
  -- its pool connection `p`, with ReadyForQuery behind it. A cancel request with this key, which
  -- another connection brings after any calls of the registry under other keys, is forwarded, once
  -- and as the 16-byte message with this key, if PostgreSQL can be reached.
  pub handle_cancel-reaches :
      (w w' v : World) (p : PoolConn) (usable : ℕ → Bool) (cs : List Call)
      → All (NotGss env) w.conn.requests
      → handle_startup_message env w ≡ (ok tt, w')
      → w'.conn.pool_conn ≡ some p
      → IsU32 p.process_id
      → IsU32 p.secret_key
      → All (Elsewhere p.process_id p.secret_key) cs
      → v.server ≡ calls usable cs w'.server
      → env'.cancel_dialled ≡ true
      → env'.cancel_written ≡ true
      → ((before : List Packet) × (w'.conn.client.sent
            ≡ before
              ++ message (backend_key_data (pool_key p)) ∷ message (ready_for_query b'I') ∷ []))
        × (handle_cancel env' (pool_key p) v ≡ (
          err cancel_done,
          record v { cancels = v.cancels ++ cancel_message (pool_key p) ∷ [] },
        ))
  unfolding handle_cancel
  handle_cancel-reaches w w' v p usable cs n h held hp hk other server dialled written =
      let s = (handle_startup_message-IsStarted env w w' n h).session in
      let same : s.pool ≡ p = some_path s.pool p (sym s.held ∙ held) in
      let found : get_connection_for_cancel_request p.process_id p.secret_key v.server
          ≡ some s.admitted.conn.id =
        ap (get_connection_for_cancel_request p.process_id p.secret_key) server
        ∙ get_connection-calls usable p.process_id p.secret_key cs w'.server hp hk other
        ∙ subst
            (λ q.
              get_connection_for_cancel_request q.process_id q.secret_key w'.server
              ≡ some s.admitted.conn.id)
            same s.known in
      (
        (
          s.admitted.conn.client.sent,
          s.seen
              ∙ ap
                  (λ q.
                    s.admitted.conn.client.sent
                    ++ message (backend_key_data (pool_key q))
                      ∷ message (ready_for_query b'I')
                      ∷ [])
                  same,
        ),
        cancel_target-reaches (pool_key p) _ s.admitted.conn.id v found dialled written,
      )
