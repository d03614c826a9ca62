-- ===== src/Proxy/Serving.antt =====
-- internal/proxy/message.go: what the client sees in the query loop.
use gprxy.Common.{
  ℕ_eq, ◌≡◌, refl, arith, Bool, true, false, Option, none, some, List, [], ◌∷◌, Text, Text_eq,
  Event, arrives, lost, Sink, send, Outcome, ok, err, panics, blocks, Act,
}
use gprxy.Protocol.{BackendMessage, FrontendMessage, terminate, Packet, message, fatal}
use gprxy.Protocol.Stages.{
  Stage, opening, authenticating, serving, ended, stage_after, Transcript, Conforms, Moves,
  send-Moves, Moves-Conforms, Leaves,
}
use gprxy.Auth.{send_error_to_client}
use gprxy.Proxy.State.{PoolConn, World}
use gprxy.Proxy.Messages.{is_ready, Relay, relayed, relay, after_send, to_backend, handle_received}
use gprxy.Proxy.Startup.{written, write, tell_error}
use gprxy.Proxy.{go_on, message_loop}

-- The client of the connection is at this stage.
abbrev pub On : Stage → World → Type 0
On st w = Transcript st w.conn.client.sent

abbrev pub Shown : World → Type 0
Shown w = Conforms w.conn.client

relayed-Serving :
    (ready : Bool) (rest : List (Event BackendMessage)) (k : Bool × Sink Packet)
    (next : Sink Packet → Outcome (Unit {0}) × Relay)
    → Moves serving serving k
    → ((k' : Sink Packet) → Transcript serving k'.sent → Transcript serving (next k').1.client.sent)
    → Transcript serving (relayed ready rest k next).1.client.sent
relayed-Serving ready rest (false, k) next h n = h
relayed-Serving true rest (true, k) next h n = h
relayed-Serving false rest (true, k) next h n = n k h

relay-Serving :
    (inbox : List (Event BackendMessage)) (k : Sink Packet)
    → Transcript serving k.sent
    → Transcript serving (relay inbox k).1.client.sent
unfolding relay stage_after
relay-Serving [] k h = h
relay-Serving (lost ∷ rest) k h = h
relay-Serving (arrives m ∷ rest) k h =
    relayed-Serving (is_ready m) rest (send (message m) k) (relay rest)
      (send-Moves serving serving (message m) k h refl) (relay-Serving rest)

after_send-Serving :
    (p : PoolConn) (k : Bool × Sink FrontendMessage) (w : World)
    → On serving w
    → On serving (after_send p k w).1
after_send-Serving p (true, k) w h = relay-Serving p.inbox w.conn.client h
after_send-Serving p (false, k) w h = h

to_backend-Serving :
    (m : FrontendMessage) (o : Option PoolConn) (w : World)
    → On serving w
    → On serving (to_backend m o w).1
to_backend-Serving m none w h = h
to_backend-Serving terminate (some p) w h = h
to_backend-Serving m (some p) w h = after_send-Serving p (send m p.sink) w h

pub go_on-Leaves :
    (P Q : World → Type 0) (r : Outcome (Unit {0}) × World) (next : Act World (Unit {0}))
    → Leaves P Q r
    → ((w : World) → P w → Q (next w).1)
    → Q (go_on r next).1
go_on-Leaves P Q (ok _, w) next h n = n w h
go_on-Leaves P Q (err e, w) next h n = h
go_on-Leaves P Q (panics, w) next h n = h
go_on-Leaves P Q (blocks, w) next h n = h

always : (P : World → Type 0) (r : Outcome (Unit {0}) × World) → P r.1 → Leaves P P r
always P (ok _, w) h = h
always P (err e, w) h = h
always P (panics, w) h = h
always P (blocks, w) h = h

pub message_loop-Serving :
    (inbox : List (Event FrontendMessage)) (w : World)
    → On serving w
    → On serving (message_loop inbox w).1
unfolding message_loop handle_received
message_loop-Serving [] w h = h
message_loop-Serving (lost ∷ rest) w h = h
message_loop-Serving (arrives m ∷ rest) w h =
    let w₀ : World = record w { conn = record (w.conn) { inbox = rest } } in
    go_on-Leaves (On serving) (On serving) (handle_received m w₀) (message_loop rest)
      (always (On serving) (handle_received m w₀) (to_backend-Serving m w.conn.pool_conn w₀ h))
      (message_loop-Serving rest)

-- No session: the client has been told nothing but the answers to its requests for TLS.
abbrev pub Unstarted : World → Type 0
Unstarted w = On opening w × (w.conn.pool_conn ≡ none)

-- No message is answered without a session.
abbrev Refused : World → Type 0
Refused w = ⊥

to_backend-Unstarted :
    (m : FrontendMessage) (o : Option PoolConn) (w : World)
    → o ≡ none
    → On opening w
    → Leaves Refused Shown (to_backend m o w)
to_backend-Unstarted m none w e h = (opening, h)
to_backend-Unstarted m (some p) w e h = absurd (ground arith)

pub message_loop-Unstarted :
    (inbox : List (Event FrontendMessage)) (w : World)
    → Unstarted w
    → Shown (message_loop inbox w).1
unfolding message_loop handle_received
message_loop-Unstarted [] w (h, e) = (opening, h)
message_loop-Unstarted (lost ∷ rest) w (h, e) = (opening, h)
message_loop-Unstarted (arrives m ∷ rest) w (h, e) =
    let w₀ : World = record w { conn = record (w.conn) { inbox = rest } } in
    go_on-Leaves Refused Shown (handle_received m w₀) (message_loop rest)
      (to_backend-Unstarted m w.conn.pool_conn w₀ e h) (λ w₁ h₁. absurd h₁)

written-Leaves :
    (st st' : Stage) (r : Bool × Sink Packet) (w : World)
    → Moves st st' r
    → Leaves (On st') Shown (written r w)
written-Leaves st st' (true, k) w h = h
written-Leaves st st' (false, k) w h = (st, h)

pub written-Unstarted :
    (r : Bool × Sink Packet) (w : World)
    → Moves opening opening r
    → w.conn.pool_conn ≡ none
    → Leaves Unstarted Shown (written r w)
written-Unstarted (true, k) w h e = (h, e)
written-Unstarted (false, k) w h e = (opening, h)

pub write-Leaves :
    (st st' : Stage) (p : Packet) (w : World)
    → On st w
    → stage_after st p ≡ some st'
    → Leaves (On st') Shown (write p w)
unfolding write
write-Leaves st st' p w h e =
    written-Leaves st st' (send p w.conn.client) w (send-Moves st st' p w.conn.client h e)

pub tell_error-Shown :
    (P : World → Type 0) (msg : Text) (w : World)
    → On authenticating w
    → Leaves P Shown (tell_error msg w)
unfolding tell_error send_error_to_client stage_after
tell_error-Shown P msg w h =
    Moves-Conforms authenticating ended (send (message (fatal msg)) w.conn.client)
      (send-Moves authenticating ended (message (fatal msg)) w.conn.client h refl)
