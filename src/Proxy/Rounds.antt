-- ===== src/Proxy/Rounds.antt =====
-- internal/proxy/connection.go: the query loop of `handleConnection`, round by round.
use gprxy.Common.{
  ◌≡◌, refl, sym, ap, Bool, true, false, Option, none, some, List, [], ◌∷◌, Event, arrives, lost,
  Sink, send, Outcome, ok, err, panics, blocks, Act,
}
use gprxy.Protocol.{FrontendMessage, terminate}
use gprxy.Proxy.State.{PoolConn, World}
use gprxy.Proxy.Messages.{after_send, to_backend, receive, handle_received, handle_message}
use gprxy.Proxy.{go_on, message_loop}

after_send-inbox :
    (p : PoolConn) (r : Bool × Sink FrontendMessage) (w : World)
    → (after_send p r w).1.conn.inbox ≡ w.conn.inbox
after_send-inbox p (true, k) w = refl
after_send-inbox p (false, k) w = refl

to_backend-inbox :
    (m : FrontendMessage) (o : Option PoolConn) (w : World)
    → (to_backend m o w).1.conn.inbox ≡ w.conn.inbox
to_backend-inbox m none w = refl
to_backend-inbox terminate (some p) w = refl
to_backend-inbox m (some p) w = after_send-inbox p (send m p.sink) w

-- The loop that goes on with what the connection has still to read.
abbrev loop : Act World (Unit {0})
loop w = message_loop w.conn.inbox w

go_on-loop :
    (rest : List (Event FrontendMessage)) (r : Outcome (Unit {0}) × World)
    → r.1.conn.inbox ≡ rest
    → go_on r (message_loop rest) ≡ go_on r loop
go_on-loop rest (ok _, w) e = ap (λ x. message_loop x w) (sym e)
go_on-loop rest (err x, w) e = refl
go_on-loop rest (panics, w) e = refl
go_on-loop rest (blocks, w) e = refl

message_loop-receive :
    (inbox : List (Event FrontendMessage)) (w : World)
    → message_loop inbox w ≡ go_on (receive inbox w) loop
unfolding message_loop handle_received
message_loop-receive [] w = refl
message_loop-receive (lost ∷ rest) w = refl
message_loop-receive (arrives m ∷ rest) w =
    let w₀ : World = record w { conn = record (w.conn) { inbox = rest } } in
    go_on-loop rest (handle_received m w₀) (to_backend-inbox m w.conn.pool_conn w₀)

-- The query loop is `for { handleMessage }`: it runs `handleMessage` once, and if that succeeds it
-- runs again, on the connection as it is left; any other outcome ends it.
pub message_loop-handle_message :
    (w : World)
    → message_loop w.conn.inbox w ≡ go_on (handle_message w) (λ w'. message_loop w'.conn.inbox w')
unfolding handle_message
message_loop-handle_message w = message_loop-receive w.conn.inbox w
