-- ===== src/Proxy/Messages.antt =====
-- internal/proxy/message.go. Log lines are left out; but the process identifier and the secret that
-- they show are read of the pool connection, and that panics on a nil pointer.
use gprxy.Common.{
  Bool, true, false, Option, none, some, List, [], ◌∷◌, Event, arrives, lost, Sink, send, Outcome,
  ok, err, panics, blocks, Act, receive_failed, send_failed, client_terminated,
}
use gprxy.Protocol.{BackendMessage, ready_for_query, FrontendMessage, terminate, Packet, message}
use gprxy.Proxy.State.{PoolConn, World}

abbrev pub is_ready : BackendMessage → Bool
is_ready (ready_for_query tx) = true
is_ready _ = false

-- What is left of the messages, and the client's sink.
pub record Relay : Type 0 where
  pub inbox : List (Event BackendMessage)
  pub client : Sink Packet

abbrev pub relayed :
    Bool
    → List (Event BackendMessage)
    → Bool × Sink Packet
    → (Sink Packet → Outcome (Unit {0}) × Relay)
    → Outcome (Unit {0}) × Relay
relayed ready rest (false, k) next = (err send_failed, record { inbox = rest; client = k })
relayed true rest (true, k) next = (ok tt, record { inbox = rest; client = k })
relayed false rest (true, k) next = next k

-- `relayBackendResponse`, over the messages of PostgreSQL.
unfoldable pub relay : List (Event BackendMessage) → Sink Packet → Outcome (Unit {0}) × Relay
relay [] k = (blocks, record { inbox = []; client = k })
relay (lost ∷ rest) k = (err receive_failed, record { inbox = rest; client = k })
relay (arrives m ∷ rest) k = relayed (is_ready m) rest (send (message m) k) (relay rest)

abbrev pub with_relay : PoolConn → Outcome (Unit {0}) × Relay → Act World (Unit {0})
with_relay p (r, t) w = (
  r,
  record w {
    conn = record (w.conn) { client = t.client; pool_conn = some (record p { inbox = t.inbox }) };
  },
)

abbrev pub after_send : PoolConn → Bool × Sink FrontendMessage → Act World (Unit {0})
after_send p (true, k) w = with_relay (record p { sink = k }) (relay p.inbox w.conn.client) w
after_send p (false, k) w = (
  err send_failed,
  record w { conn = record (w.conn) { pool_conn = some (record p { sink = k }) } },
)

abbrev pub to_backend : FrontendMessage → Option PoolConn → Act World (Unit {0})
to_backend m none w = (panics, w)
to_backend terminate (some p) w = (err client_terminated, w)
to_backend m (some p) w = after_send p (send m p.sink) w

-- `handleMessage` once a message is there.
unfoldable pub handle_received : FrontendMessage → Act World (Unit {0})
unfolding relay
handle_received m w = to_backend m w.conn.pool_conn w

abbrev pub receive : List (Event FrontendMessage) → Act World (Unit {0})
receive [] w = (blocks, w)
receive (lost ∷ rest) w = (err receive_failed, record w { conn = record (w.conn) { inbox = rest } })
receive (arrives m ∷ rest) w =
    handle_received m (record w { conn = record (w.conn) { inbox = rest } })

unfoldable pub handle_message : Act World (Unit {0})
unfolding handle_received
handle_message w = receive w.conn.inbox w
