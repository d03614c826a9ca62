-- ===== src/Proxy/Relaying.antt =====
-- What `handleMessage` and the relay do: one message in, every message up to ReadyForQuery back.
use mathlib.Core.Path.{subst}
use gprxy.Common.{
  ℕ, suc, ◌≡◌, ◌≢◌, refl, sym, ap, ◌∙◌, Bool, true, false, Option, none, some, List, [], ◌∷◌, ◌++◌,
  map, append-nil, append_assoc, arith, All, Event, arrives, lost, Sink, send, send-sent_ok,
  Outcome, ok, err, panics, blocks,
}
use gprxy.Protocol.{BackendMessage, FrontendMessage, terminate, Packet, message}
use gprxy.Proxy.State.{PoolConn, World}
use gprxy.Proxy.Messages.{
  is_ready, Relay, relayed, relay, with_relay, after_send, to_backend, receive, handle_message,
}

-- The messages up to the first ReadyForQuery, itself included, went to the client; what follows is
-- left for the next round.
pub record IsAnswer (script rest : List (Event BackendMessage)) (k k' : Sink Packet) : Type 0 where
  pub body : List BackendMessage
  pub last : BackendMessage
  pub unfinished : All (λ m. is_ready m ≡ false) body
  pub finished : is_ready last ≡ true
  pub script_eq : script ≡ map arrives body ++ arrives last ∷ rest
  pub seen : k'.sent ≡ k.sent ++ map message (body ++ last ∷ [])

send-ok : (m : Packet) (k k' : Sink Packet) → send m k ≡ (true, k') → k'.sent ≡ k.sent ++ m ∷ []
send-ok m k k' h = ground (arith, send-sent_ok m k)

relayed-IsAnswer :
    (m : BackendMessage) (rest : List (Event BackendMessage)) (k : Sink Packet) (t : Relay)
    → ((k' : Sink Packet) → relay rest k' ≡ (ok tt, t) → IsAnswer rest t.inbox k' t.client)
    → (b : Bool) → is_ready m ≡ b
    → (r : Bool × Sink Packet) → send (message m) k ≡ r
    → relayed b rest r (relay rest) ≡ (ok tt, t)
    → IsAnswer (arrives m ∷ rest) t.inbox k t.client
relayed-IsAnswer m rest k t ih true e (true, k') s g = record {
  body = [];
  last = m;
  unfinished = tt;
  finished = e;
  script_eq = ground arith;
  seen = ground (arith, send-ok (message m) k k' s);
}
relayed-IsAnswer m rest k t ih false e (true, k') s g =
    let a = ih k' g in
    record {
      body = m ∷ a.body;
      last = a.last;
      unfinished = (e, a.unfinished);
      finished = a.finished;
      script_eq = ap (λ x. arrives m ∷ x) a.script_eq;
      seen =
          a.seen
          ∙ ap (λ x. x ++ map message (a.body ++ a.last ∷ [])) (send-ok (message m) k k' s)
          ∙ append_assoc k.sent (message m ∷ []) (map message (a.body ++ a.last ∷ []));
    }
relayed-IsAnswer m rest k t ih true e (false, k') s g = absurd (ground arith)
relayed-IsAnswer m rest k t ih false e (false, k') s g = absurd (ground arith)

relay-IsAnswer :
    (script : List (Event BackendMessage)) (k : Sink Packet) (t : Relay)
    → relay script k ≡ (ok tt, t)
    → IsAnswer script t.inbox k t.client
unfolding relay
relay-IsAnswer [] k t h = absurd (ground arith)
relay-IsAnswer (lost ∷ rest) k t h = absurd (ground arith)
relay-IsAnswer (arrives m ∷ rest) k t h =
    relayed-IsAnswer m rest k t (λ k'. relay-IsAnswer rest k' t) (is_ready m) refl
      (send (message m) k) refl h

-- One round over a pool connection `p` that is left as `p'`.
pub record IsRound (m : FrontendMessage) (p p' : PoolConn) (w w' : World) : Type 0 where
  pub held : w.conn.pool_conn ≡ some p
  pub kept : w'.conn.pool_conn ≡ some p'
  pub told : p'.sink.sent ≡ p.sink.sent ++ m ∷ []
  pub answer : IsAnswer p.inbox p'.inbox w.conn.client w'.conn.client

after_send-ok :
    (m : FrontendMessage) (p : PoolConn) (r : Bool × Sink FrontendMessage) (w w' : World)
    → send m p.sink ≡ r
    → w.conn.pool_conn ≡ some p
    → after_send p r w ≡ (ok tt, w')
    → (p' : PoolConn) × IsRound m p p' w w'
after_send-ok m p (false, k) w w' e held h = absurd (ground arith)
after_send-ok m p (true, k) w w' e held h = of_relay (relay p.inbox w.conn.client) refl h
  where
    of_relay :
        (r : Outcome (Unit {0}) × Relay)
        → relay p.inbox w.conn.client ≡ r
        → with_relay (record p { sink = k }) r w ≡ (ok tt, w')
        → (p' : PoolConn) × IsRound m p p' w w'
    of_relay (ok _, t) f g =
        let a = relay-IsAnswer p.inbox w.conn.client t f in
        let same : t.client ≡ w'.conn.client = ground arith in
        (
          record p { sink = k; inbox = t.inbox },
          record {
            held = held;
            kept = ground arith;
            told = ground (arith, send-sent_ok m p.sink);
            answer = subst (IsAnswer p.inbox t.inbox w.conn.client) same a;
          },
        )
    of_relay (err x, t) f g = absurd (ground arith)
    of_relay (panics, t) f g = absurd (ground arith)
    of_relay (blocks, t) f g = absurd (ground arith)

to_backend-ok :
    (m : FrontendMessage) (o : Option PoolConn) (w w' : World)
    → w.conn.pool_conn ≡ o
    → to_backend m o w ≡ (ok tt, w')
    → (p : PoolConn) × (p' : PoolConn) × IsRound m p p' w w' × (m ≢ terminate)
to_backend-ok terminate none w w' e h = absurd (ground arith)
to_backend-ok terminate (some p) w w' e h = absurd (ground arith)
to_backend-ok m none w w' e h = absurd (ground arith)
to_backend-ok m (some p) w w' e h =
    let (p', r) = after_send-ok m p (send m p.sink) w w' refl e h in (p, p', r, λ c. cc)

-- A round that succeeds takes one message of the client, which is not Terminate, sends it to
-- PostgreSQL as it is, and sends the client PostgreSQL's messages up to the first ReadyForQuery, in
-- order and nothing else.
pub handle_message-IsRound :
    (w w' : World)
    → handle_message w ≡ (ok tt, w')
    → (m : FrontendMessage) × (rest : List (Event FrontendMessage)) × (p : PoolConn)
      × (p' : PoolConn) × (w.conn.inbox ≡ arrives m ∷ rest)
      × (m ≢ terminate)
      × IsRound m p p' w w'
unfolding handle_message
handle_message-IsRound w w' h = received w.conn.inbox refl h
  where
    received :
        (inbox : List (Event FrontendMessage))
        → w.conn.inbox ≡ inbox
        → receive inbox w ≡ (ok tt, w')
        → (m : FrontendMessage) × (rest : List (Event FrontendMessage)) × (p : PoolConn)
          × (p' : PoolConn) × (w.conn.inbox ≡ arrives m ∷ rest)
          × (m ≢ terminate)
          × IsRound m p p' w w'
    received [] e g = absurd (ground arith)
    received (lost ∷ rest) e g = absurd (ground arith)
    received (arrives m ∷ rest) e g =
        let w₁ : World = record w { conn = record (w.conn) { inbox = rest } } in
        let (p, p', r, c) = to_backend-ok m w.conn.pool_conn w₁ w' refl g in
        (
          m,
          rest,
          p,
          p',
          e,
          c,
          record { held = r.held; kept = r.kept; told = r.told; answer = r.answer },
        )

send-open :
    {O : Type 0} (m : O) (k : Sink O)
    → ((n : ℕ) → k.accepts n ≡ true)
    → send m k ≡ (true, (send m k).1)
unfolding send
send-open m k all = rw (all k.tries)

relay-stalls :
    (ms : List BackendMessage) (k : Sink Packet)
    → All (λ m. is_ready m ≡ false) ms
    → ((n : ℕ) → k.accepts n ≡ true)
    → (t : Relay) × (relay (map arrives ms) k ≡ (blocks, t))
      × (t.client.sent ≡ k.sent ++ map message ms)
unfolding relay send
relay-stalls [] k h all = (record { inbox = []; client = k }, refl, sym (append-nil k.sent))
relay-stalls (m ∷ ms) k (e, h) all =
    let k' : Sink Packet = record k { sent = k.sent ++ message m ∷ []; tries = suc k.tries } in
    let (t, r, s) = relay-stalls ms k' h all in
    (t, rw (all k.tries, e) r, s ∙ append_assoc k.sent (message m ∷ []) (map message ms))

to_backend-send :
    (m : FrontendMessage) (p : PoolConn) (w : World)
    → m ≢ terminate
    → to_backend m (some p) w ≡ after_send p (send m p.sink) w
to_backend-send terminate p w c = absurd (c refl)
to_backend-send _ p w c = refl

-- A message that PostgreSQL does not answer with ReadyForQuery stops the connection: the round
-- forwards what comes and then waits for ever, and the messages that the client sent after it are
-- not read. PostgreSQL sends ReadyForQuery after a Sync, and not after Parse, Bind, Describe or
-- Execute, so a client of the extended protocol that sends these before its Sync waits for ever.
pub handle_message-stalls :
    (w : World) (m : FrontendMessage) (rest : List (Event FrontendMessage)) (p : PoolConn)
    (ms : List BackendMessage)
    → w.conn.inbox ≡ arrives m ∷ rest
    → m ≢ terminate
    → w.conn.pool_conn ≡ some p
    → p.inbox ≡ map arrives ms
    → All (λ x. is_ready x ≡ false) ms
    → ((n : ℕ) → p.sink.accepts n ≡ true)
    → ((n : ℕ) → w.conn.client.accepts n ≡ true)
    → (w' : World) × (handle_message w ≡ (blocks, w'))
      × (w'.conn.inbox ≡ rest)
      × (w'.conn.client.sent ≡ w.conn.client.sent ++ map message ms)
unfolding handle_message
handle_message-stalls w m rest p ms e c held script quiet up down =
    let (t, r, s) = relay-stalls ms w.conn.client quiet down in
    let w₁ : World = record w { conn = record (w.conn) { inbox = rest } } in
    let k : Sink FrontendMessage = (send m p.sink).1 in
    (
      (with_relay (record p { sink = k }) (blocks, t) w₁).1,
      ap (λ x. receive x w) e
          ∙ ap (λ x. to_backend m x w₁) held
          ∙ to_backend-send m p w₁ c
          ∙ ap (λ x. after_send p x w₁) (send-open m p.sink up)
          ∙ ap (λ x. with_relay (record p { sink = k }) (relay x w.conn.client) w₁) script
          ∙ ap (λ x. with_relay (record p { sink = k }) x w₁) r,
      refl,
      s,
    )
