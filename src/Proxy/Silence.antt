-- ===== src/Proxy/Silence.antt =====
-- internal/proxy/message.go: the message loop comes to an end when neither peer falls silent.
use mathlib.Core.Path.{subst}
use gprxy.Common.{
  ◌≡◌, ◌≢◌, refl, sym, hangs, continue, ℕ_eq, Bool, true, false, Option, none, some, List, [], ◌∷◌,
  Text, Text_eq, Event, arrives, lost, Sink, send, Closes, Outcome, ok, err, panics, blocks, Act,
  Ends,
}
use gprxy.Protocol.{BackendMessage, FrontendMessage, terminate, Packet, message}
use gprxy.Auth.{send_error_to_client}
use gprxy.Pool.{PoolKey_eq}
use gprxy.Proxy.State.{PoolConn, World}
use gprxy.Proxy.Messages.{
  is_ready, Relay, relayed, relay, with_relay, after_send, to_backend, handle_received,
}
use gprxy.Proxy.Startup.{written, write, tell_error}
use gprxy.Proxy.{go_on, message_loop}

-- `Exec` on the pool connection comes to an end.
abbrev pub Calm : PoolConn → Type 0
Calm p = (sql : Text) → p.exec sql ≢ hangs

-- A pool connection on which PostgreSQL does not fall silent.
abbrev pub IsResponsive : PoolConn → Type 0
IsResponsive p = Closes p.inbox × Calm p

abbrev pub PoolCalm : Option PoolConn → Type 0
PoolCalm none = Unit
PoolCalm (some p) = Calm p

abbrev pub PoolCloses : Option PoolConn → Type 0
PoolCloses none = Unit
PoolCloses (some p) = IsResponsive p

pub PoolCloses-PoolCalm : (o : Option PoolConn) → PoolCloses o → PoolCalm o
PoolCloses-PoolCalm none h = tt
PoolCloses-PoolCalm (some p) (c, d) = d

-- What the client and PostgreSQL still send ends with a lost connection.
abbrev pub Live : World → Type 0
Live w = Closes w.conn.inbox × PoolCloses w.conn.pool_conn

-- The call comes to an end; and after it the deferred function can.
abbrev pub Settles : {A : Type 0} → Outcome A × World → Type 0
Settles (ok a, w) = Live w
Settles (err e, w) = PoolCalm w.conn.pool_conn
Settles (panics, w) = PoolCalm w.conn.pool_conn
Settles (blocks, w) = ⊥

pub Live-PoolCalm : (w : World) → Live w → PoolCalm w.conn.pool_conn
Live-PoolCalm w h = PoolCloses-PoolCalm w.conn.pool_conn h.1

pub continue-Settles :
    {A B : Type 0} (r : Outcome A) (f : A → Act World B) (w : World)
    → Settles (r, w)
    → ((a : A) → Live w → Settles (f a w))
    → Settles (continue r f w)
continue-Settles (ok a) f w h k = k a h
continue-Settles (err e) f w h k = h
continue-Settles panics f w h k = h
continue-Settles blocks f w h k = h

relayed-Ends :
    (ready : Bool) (rest : List (Event BackendMessage)) (k : Bool × Sink Packet)
    (next : Sink Packet → Outcome (Unit {0}) × Relay)
    → Closes rest
    → ((k' : Sink Packet) → Ends (λ _ t. Closes t.inbox) (next k'))
    → Ends (λ _ t. Closes t.inbox) (relayed ready rest k next)
relayed-Ends ready rest (false, k) next c h = tt
relayed-Ends true rest (true, k) next c h = c
relayed-Ends false rest (true, k) next c h = h k

relay-Ends :
    (inbox : List (Event BackendMessage)) (k : Sink Packet)
    → Closes inbox
    → Ends (λ _ t. Closes t.inbox) (relay inbox k)
unfolding relay
relay-Ends [] k c = c
relay-Ends (lost ∷ rest) k c = tt
relay-Ends (arrives m ∷ rest) k c =
    relayed-Ends (is_ready m) rest (send (message m) k) (relay rest) c (λ k'. relay-Ends rest k' c)

with_relay-Settles :
    (p : PoolConn) (r : Outcome (Unit {0}) × Relay) (w : World)
    → Closes w.conn.inbox
    → Calm p
    → Ends (λ _ t. Closes t.inbox) r
    → Settles (with_relay p r w)
with_relay-Settles p (ok _, t) w c d h = (c, (h, d))
with_relay-Settles p (err e, t) w c d h = d
with_relay-Settles p (panics, t) w c d h = d
with_relay-Settles p (blocks, t) w c d h = h

after_send-Settles :
    (p : PoolConn) (k : Bool × Sink FrontendMessage) (w : World)
    → IsResponsive p
    → Closes w.conn.inbox
    → Settles (after_send p k w)
after_send-Settles p (true, k) w d c =
    with_relay-Settles (record p { sink = k }) (relay p.inbox w.conn.client) w c d.1
      (relay-Ends p.inbox w.conn.client d.0)
after_send-Settles p (false, k) w d c = d.1

to_backend-Settles :
    (m : FrontendMessage) (o : Option PoolConn) (w : World)
    → w.conn.pool_conn ≡ o
    → PoolCloses o
    → Closes w.conn.inbox
    → Settles (to_backend m o w)
to_backend-Settles m none w e d c = subst PoolCalm (sym e) tt
to_backend-Settles terminate (some p) w e d c = subst PoolCalm (sym e) d.1
to_backend-Settles m (some p) w e d c = after_send-Settles p (send m p.sink) w d c

pub go_on-Settles :
    (r : Outcome (Unit {0}) × World) (next : Act World (Unit {0}))
    → Settles r
    → ((w : World) → Live w → Settles (next w))
    → Settles (go_on r next)
go_on-Settles (ok _, w) next h k = k w h
go_on-Settles (err e, w) next h k = h
go_on-Settles (panics, w) next h k = h
go_on-Settles (blocks, w) next h k = h

pub message_loop-Settles :
    (inbox : List (Event FrontendMessage)) (w : World)
    → Closes inbox
    → PoolCloses w.conn.pool_conn
    → Settles (message_loop inbox w)
unfolding message_loop handle_received
message_loop-Settles [] w c d = c
message_loop-Settles (lost ∷ rest) w c d = PoolCloses-PoolCalm w.conn.pool_conn d
message_loop-Settles (arrives m ∷ rest) w c d =
    let w₀ : World = record w { conn = record (w.conn) { inbox = rest } } in
    go_on-Settles (handle_received m w₀) (message_loop rest)
      (to_backend-Settles m w.conn.pool_conn w₀ refl d c)
      (λ w₁ h. message_loop-Settles rest w₁ c h.1)

written-Settles : (r : Bool × Sink Packet) (w : World) → Live w → Settles (written r w)
written-Settles (true, k) w h = h
written-Settles (false, k) w h = Live-PoolCalm w h

pub write-Settles : (p : Packet) (w : World) → Live w → Settles (write p w)
unfolding write
write-Settles p w h = written-Settles (send p w.conn.client) w h

pub tell_error-Settles :
    (msg : Text) (w : World) → PoolCalm w.conn.pool_conn → Settles (tell_error msg w)
unfolding tell_error send_error_to_client
tell_error-Settles msg w h = h
