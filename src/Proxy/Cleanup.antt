-- ===== src/Proxy/Cleanup.antt =====
-- internal/proxy/connection.go: every way out of `handleConnection`, and the deferred function.
use mathlib.Core.Path.{subst}
use gprxy.Common.{
  ℕ, ◌+◌, ◌-◌, ◌≡◌, ◌≢◌, refl, sym, ap, ◌∙◌, Bool, true, false, Option, none, some, List, [], ◌∷◌,
  arith, Text_eq, lookup-remove_self, ℕ_eq, Event, arrives, lost, Sink, send, Outcome, ok, err,
  panics, blocks, Act,
}
use gprxy.Protocol.{BackendKeyData, StartupRequest, gss_enc_request, FrontendMessage, terminate}
use gprxy.Server.{Server, make_cancel_key, unregister_connection, get_connection_for_cancel_request}
use gprxy.Proxy.State.{PoolConn, World, Env}
use gprxy.Proxy.Messages.{after_send, to_backend, handle_received}
use gprxy.Proxy.Startup.{startup_loop, handle_startup_message}
use gprxy.Proxy.{
  go_on, message_loop, full_reset, with_pool_conn, after_reset, give_back, deferred, release,
  unregister, cleanup, closing, handle_connection,
}
use gprxy.Proxy.Counting.{Runs, Out-Runs, held, Out, startup_loop-Out}

after_send-Out :
    (n : ℕ) (p : PoolConn) (r : Bool × Sink FrontendMessage) (w : World)
    → w.manager.leased ≡ n + 1
    → Out n (after_send p r w).1
after_send-Out n p (true, k) w h = h
after_send-Out n p (false, k) w h = h

to_backend-Out :
    (n : ℕ) (m : FrontendMessage) (o : Option PoolConn) (w : World)
    → w.conn.pool_conn ≡ o
    → Out n w
    → Out n (to_backend m o w).1
to_backend-Out n m none w e h = h
to_backend-Out n terminate (some p) w e h = h
to_backend-Out n m (some p) w e h =
    after_send-Out n p (send m p.sink) w (h ∙ ap (λ o. n + held o) e)

go_on-Runs :
    (n : ℕ) (r : Outcome (Unit {0}) × World) (next : Act World (Unit {0}))
    → Runs n r
    → ((w : World) → Out n w → Runs n (next w))
    → Runs n (go_on r next)
go_on-Runs n (ok _, w) next h k = k w h
go_on-Runs n (err e, w) next h k = h
go_on-Runs n (panics, w) next h k = h
go_on-Runs n (blocks, w) next h k = tt

message_loop-Runs :
    (n : ℕ) (inbox : List (Event FrontendMessage)) (w : World)
    → Out n w
    → Runs n (message_loop inbox w)
unfolding message_loop handle_received
message_loop-Runs n [] w h = tt
message_loop-Runs n (lost ∷ rest) w h = h
message_loop-Runs n (arrives m ∷ rest) w h =
    let w₀ : World = record w { conn = record (w.conn) { inbox = rest } } in
    go_on-Runs n (handle_received m w₀) (message_loop rest)
      (Out-Runs n (handle_received m w₀) (to_backend-Out n m w.conn.pool_conn w₀ refl h))
      (message_loop-Runs n rest)

-- What the deferred function leaves: the count as it was without this connection, and no entry
-- of the registry under the connection's key.
abbrev pub Unregistered : Server → Option BackendKeyData → Type 0
Unregistered s none = Unit
Unregistered s (some k) = get_connection_for_cancel_request k.process_id k.secret_key s ≡ none

abbrev pub Tidy : ℕ → World → Type 0
Tidy n w = (w.manager.leased ≡ n) × Unregistered w.server w.conn.key

unregister-leased : (o : Option BackendKeyData) (w : World) → (unregister o w).manager ≡ w.manager
unregister-leased none w = refl
unregister-leased (some k) w = refl

unregister-key : (o : Option BackendKeyData) (w : World) → (unregister o w).conn.key ≡ w.conn.key
unregister-key none w = refl
unregister-key (some k) w = refl

unregister-Unregistered :
    (o : Option BackendKeyData) (w : World) → Unregistered (unregister o w).server o
unfolding unregister_connection get_connection_for_cancel_request
unregister-Unregistered none w = tt
unregister-Unregistered (some k) w =
    lookup-remove_self (make_cancel_key k.process_id k.secret_key) w.server.active_connections

unregister-Tidy : (n : ℕ) (w : World) → w.manager.leased ≡ n → Tidy n (unregister w.conn.key w)
unregister-Tidy n w h = (
  ap (λ m. m.leased) (unregister-leased w.conn.key w) ∙ h,
  subst (Unregistered (unregister w.conn.key w).server) (sym (unregister-key w.conn.key w))
      (unregister-Unregistered w.conn.key w),
)

release-Tidy :
    (n : ℕ) (p : PoolConn) (w : World)
    → w.manager.leased ≡ n + 1
    → Tidy n (unregister w.conn.key (release (with_pool_conn p w)))
release-Tidy n p w h =
    unregister-Tidy n (release (with_pool_conn p w)) (ap (λ m. m - 1) h ∙ omega arith)

-- What ended left everything tidy.
abbrev TidyEnd : ℕ → Outcome (Unit {0}) × World → Type 0
TidyEnd n r = r.0 ≢ blocks → Tidy n r.1

after_reset-TidyEnd :
    (n : ℕ) (r : Outcome (Unit {0}) × PoolConn) (w : World)
    → w.manager.leased ≡ n + 1
    → TidyEnd n (after_reset r w)
after_reset-TidyEnd n (ok _, p) w h d = release-Tidy n p w h
after_reset-TidyEnd n (err e, p) w h d = release-Tidy n p w h
after_reset-TidyEnd n (panics, p) w h d = release-Tidy n p w h
after_reset-TidyEnd n (blocks, p) w h d = absurd (d refl)

give_back-TidyEnd :
    (n : ℕ) (o : Option PoolConn) (w : World)
    → w.conn.pool_conn ≡ o
    → Out n w
    → TidyEnd n (give_back o w)
give_back-TidyEnd n none w e h d = unregister-Tidy n w (h ∙ ap (λ o. n + held o) e ∙ omega arith)
give_back-TidyEnd n (some p) w e h d =
    after_reset-TidyEnd n (full_reset p) w (h ∙ ap (λ o. n + held o) e) d

cleanup-TidyEnd : (n : ℕ) (w : World) → Out n w → TidyEnd n (cleanup w)
unfolding cleanup
cleanup-TidyEnd n w h = give_back-TidyEnd n w.conn.pool_conn w refl h

deferred-TidyEnd :
    (n : ℕ) (c : Outcome (Unit {0})) (r : Outcome (Unit {0}) × World)
    → TidyEnd n r
    → TidyEnd n (deferred c r)
deferred-TidyEnd n c (ok _, w) h d = h (λ e. ground arith)
deferred-TidyEnd n c (err x, w) h d = h (λ e. ground arith)
deferred-TidyEnd n c (panics, w) h d = h (λ e. ground arith)
deferred-TidyEnd n c (blocks, w) h d = h d

closing-TidyEnd : (n : ℕ) (r : Outcome (Unit {0}) × World) → Runs n r → TidyEnd n (closing r)
closing-TidyEnd n (ok u, w) h d = deferred-TidyEnd n (ok u) (cleanup w) (cleanup-TidyEnd n w h) d
closing-TidyEnd n (err e, w) h d = deferred-TidyEnd n (err e) (cleanup w) (cleanup-TidyEnd n w h) d
closing-TidyEnd n (panics, w) h d = deferred-TidyEnd n panics (cleanup w) (cleanup-TidyEnd n w h) d
closing-TidyEnd n (blocks, w) h d = absurd (d refl)

module _ {Conv : Type 0} (env : Env Conv) where
  -- A connection that comes to its end, by a return, an error or a panic at whichever step, leaves
  -- as many pool connections out as before it, and no entry of the registry under its key. A
  -- connection starts without a pool connection.
  pub handle_connection-Tidy :
      (w : World)
      → w.conn.pool_conn ≡ none
      → (handle_connection env w).0 ≢ blocks
      → Tidy w.manager.leased (handle_connection env w).1
  unfolding handle_connection handle_startup_message
  handle_connection-Tidy w e ends =
      let started : Outcome (Unit {0}) × World = startup_loop env w.conn.requests w in
      let n : ℕ = w.manager.leased in
      closing-TidyEnd n (go_on started (λ w₁. message_loop w₁.conn.inbox w₁))
        (go_on-Runs n started (λ w₁. message_loop w₁.conn.inbox w₁)
          (startup_loop-Out env n w.conn.requests w (refl, e))
          (λ w₁ h. message_loop-Runs n w₁.conn.inbox w₁ h))
        ends

  -- A client whose startup request is a GSSENCRequest and that then sends any message makes the
  -- proxy panic, without an authentication: `handleStartupMessage` has no case for the request, so
  -- that it returns without an error and without a pool connection.
  pub handle_connection-unauthenticated :
      (w : World) (later : List (Event StartupRequest)) (m : FrontendMessage)
      (more : List (Event FrontendMessage))
      → w.conn.requests ≡ arrives gss_enc_request ∷ later
      → w.conn.inbox ≡ arrives m ∷ more
      → w.conn.pool_conn ≡ none
      → (handle_connection env w).0 ≡ panics
  unfolding handle_connection handle_startup_message startup_loop message_loop handle_received
      cleanup
  handle_connection-unauthenticated w later m more r i e = rw (r, i, e) refl
