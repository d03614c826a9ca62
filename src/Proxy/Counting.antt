-- ===== src/Proxy/Counting.antt =====
-- internal/proxy/startup.go: how many pool connections are out while a session starts.
use gprxy.Common.{
  ℕ, suc, ◌+◌, ◌≡◌, refl, sym, ap, ◌∙◌, Bool, true, false, Option, none, some, List, [], ◌∷◌, arith,
  Text, Text_eq, codes, Map, lookup, length, ℕ_eq, Event, arrives, lost, Sink, send, Outcome, ok,
  err, panics, blocks, continue, Act,
}
use gprxy.Protocol.{
  BackendKeyData, backend_key_data, ready_for_query, StartupRequest, startup, ssl_request,
  gss_enc_request, cancel_request, Packet, message, byte,
}
use gprxy.Server.{get_connection_for_cancel_request}
use gprxy.Config.{build_connection_string}
use gprxy.Pool.{Manager, acquire_connection}
use gprxy.Pool.Leases.{Balanced, acquire_connection-Balanced}
use gprxy.Proxy.State.{PoolConn, World, Env}
use gprxy.Proxy.Cancel.{send_cancel}
use gprxy.Proxy.Startup.{
  or_empty, written, write, tell_error, authenticate, connected, connect_backend, register,
  pool_key, settled, finish_startup, or_unavailable, keyed, start_session, cancelled, cancel_target,
  handle_cancel, upgrade, answer_ssl, left, startup_loop,
}

abbrev pub held : Option PoolConn → ℕ
held none = 0
held (some p) = 1

-- `n` connections are out beside the one that this connection holds.
abbrev pub Out : ℕ → World → Type 0
Out n w = w.manager.leased ≡ n + held w.conn.pool_conn

-- No pool connection is held yet.
abbrev pub Waiting : ℕ → World → Type 0
Waiting n w = (w.manager.leased ≡ n) × (w.conn.pool_conn ≡ none)

Waiting-Out : (n : ℕ) (w : World) → Waiting n w → Out n w
Waiting-Out n w (h, e) = h ∙ omega arith ∙ ap (λ p. n + held p) (sym e)

pub continue-Keeps :
    (Q : World → Type 0) {A : Type 0} (r : Outcome A) (f : A → Act World (Unit {0})) (w : World)
    → Q w
    → ((a : A) → r ≡ ok a → Q (f a w).1)
    → Q (continue r f w).1
continue-Keeps Q (ok a) f w h k = k a refl
continue-Keeps Q (err e) f w h k = h
continue-Keeps Q panics f w h k = h
continue-Keeps Q blocks f w h k = h

-- The count after a call, unless it never ends.
abbrev pub Runs : {A : Type 0} → ℕ → Outcome A × World → Type 0
Runs n (blocks, w) = Unit
Runs n (r, w) = Out n w

pub Out-Runs : {A : Type 0} (n : ℕ) (r : Outcome A × World) → Out n r.1 → Runs n r
Out-Runs n (ok a, w) h = h
Out-Runs n (err e, w) h = h
Out-Runs n (panics, w) h = h
Out-Runs n (blocks, w) h = tt

continue-Runs :
    (n : ℕ) {A : Type 0} (r : Outcome A) (f : A → Act World (Unit {0})) (w : World)
    → Out n w
    → ((a : A) → Runs n (f a w))
    → Runs n (continue r f w)
continue-Runs n (ok a) f w h k = k a
continue-Runs n (err e) f w h k = h
continue-Runs n panics f w h k = h
continue-Runs n blocks f w h k = tt

written-Out : (n : ℕ) (r : Bool × Sink Packet) (w : World) → Out n w → Out n (written r w).1
written-Out n (true, k) w h = h
written-Out n (false, k) w h = h

write-Out : (n : ℕ) (p : Packet) (w : World) → Out n w → Out n (write p w).1
unfolding write
write-Out n p w h = written-Out n (send p w.conn.client) w h

written-Waiting :
    (n : ℕ) (r : Bool × Sink Packet) (w : World) → Waiting n w → Waiting n (written r w).1
written-Waiting n (true, k) w h = h
written-Waiting n (false, k) w h = h

module _ {Conv : Type 0} (env : Env Conv) where
  finish_startup-Out :
      (n : ℕ) (user database : Text) (p : PoolConn) (w : World)
      → Out n w
      → Out n (finish_startup env user database p w).1
  unfolding finish_startup
  finish_startup-Out n user database p w h =
      let w₀ : World = settled user database p w in
      let key : Packet = message (backend_key_data (pool_key p)) in
      let first : Outcome (Unit {0}) × World = write key w₀ in
      let h₁ : Out n first.1 = write-Out n key w₀ h in
      let second : Outcome (Unit {0}) × World = write (message (ready_for_query b'I')) first.1 in
      let h₂ : Out n second.1 = write-Out n (message (ready_for_query b'I')) first.1 h₁ in
      continue-Keeps (Out n) first.0
        (λ _ w₂.
          continue (write (message (ready_for_query b'I')) w₂).0 (λ _. register env (pool_key p))
            (write (message (ready_for_query b'I')) w₂).1)
        first.1 h₁
        (λ _ _.
          continue-Keeps (Out n) second.0 (λ _. register env (pool_key p)) second.1 h₂ (λ _ _. h₂))

  connected-Out :
      (n : ℕ) (r : Outcome PoolConn × Manager) (w : World)
      → Waiting n w
      → Balanced w.manager r
      → Runs n (connected r w)
  connected-Out n (ok p, m) w (h, e) b = b ∙ ap suc h ∙ omega arith
  connected-Out n (err x, m) w (h, e) b = b ∙ Waiting-Out n w (h, e)
  connected-Out n (panics, m) w (h, e) b = b ∙ Waiting-Out n w (h, e)
  connected-Out n (blocks, m) w (h, e) b = tt

  connect_backend-Out :
      (n : ℕ) (database user : Text) (w : World)
      → Waiting n w
      → Runs n (connect_backend env database user w)
  unfolding connect_backend
  connect_backend-Out n database user w h =
      connected-Out n
        (acquire_connection env.acquiring user database
          (build_connection_string w.conn.config database) w.manager)
        w h
        (acquire_connection-Balanced env.acquiring user database
          (build_connection_string w.conn.config database) w.manager)

  or_unavailable-Out :
      (n : ℕ) (user database : Text) (r : Outcome PoolConn) (w : World)
      → Runs n (r, w)
      → Runs n (or_unavailable env user database r w)
  unfolding tell_error
  or_unavailable-Out n user database (ok p) w h =
      Out-Runs n (finish_startup env user database p w) (finish_startup-Out n user database p w h)
  or_unavailable-Out n user database (err e) w h = Out-Runs n (tell_error _ w) h
  or_unavailable-Out n user database panics w h = h
  or_unavailable-Out n user database blocks w h = h

  start_session-Out :
      (n : ℕ) (parameters : Map Text Text) (w : World)
      → Waiting n w
      → Runs n (start_session env parameters w)
  unfolding start_session authenticate
  start_session-Out n parameters w h =
      let user : Text = or_empty (lookup (codes "user") parameters) in
      let database : Text = or_empty (lookup (codes "database") parameters) in
      let first : Outcome BackendKeyData × World = authenticate env parameters user w in
      continue-Runs n first.0
        (λ k w₂.
          or_unavailable env user database (connect_backend env database user (keyed k w₂)).0
            (connect_backend env database user (keyed k w₂)).1)
        first.1 (Waiting-Out n w h)
        (λ k.
          or_unavailable-Out n user database (connect_backend env database user (keyed k first.1)).0
            (connect_backend env database user (keyed k first.1)).1
            (connect_backend-Out n database user (keyed k first.1) h))

  cancelled-Out :
      (n : ℕ) (r : Outcome (Unit {0}) × List (List ℕ)) (w : World)
      → Out n w
      → Out n (cancelled r w).1
  cancelled-Out n (ok _, l) w h = h
  cancelled-Out n (err e, l) w h = h
  cancelled-Out n (panics, l) w h = h
  cancelled-Out n (blocks, l) w h = h

  cancel_target-Out :
      (n : ℕ) (o : Option ℕ) (k : BackendKeyData) (w : World)
      → Out n w
      → Out n (cancel_target env o k w).1
  cancel_target-Out n none k w h = h
  cancel_target-Out n (some c) k w h =
      cancelled-Out n (send_cancel env.cancel_dialled env.cancel_written k w.cancels) w h

  upgrade-Waiting : (n : ℕ) (b : Bool) (w : World) → Waiting n w → Waiting n (upgrade env b w).1
  upgrade-Waiting n true w h = h
  upgrade-Waiting n false w h = h

  answer_ssl-Waiting :
      (n : ℕ) (b : Bool) (later : ℕ) (w : World)
      → Waiting n w
      → Waiting n (answer_ssl env b later w).1
  unfolding answer_ssl write
  answer_ssl-Waiting n false later w h = written-Waiting n (send (byte b'N') w.conn.client) w h
  answer_ssl-Waiting n true later w h =
      let first : Outcome (Unit {0}) × World = written (send (byte b'S') w.conn.client) w in
      let h₁ : Waiting n first.1 = written-Waiting n (send (byte b'S') w.conn.client) w h in
      continue-Keeps (Waiting n) first.0 (λ _ w₂. upgrade env (env.handshakes later) w₂) first.1 h₁
        (λ _ _. upgrade-Waiting n (env.handshakes later) first.1 h₁)

  pub startup_loop-Out :
      (n : ℕ) (requests : List (Event StartupRequest)) (w : World)
      → Waiting n w
      → Runs n (startup_loop env requests w)
  unfolding startup_loop handle_cancel
  startup_loop-Out n [] w h = tt
  startup_loop-Out n (lost ∷ rest) w h = Waiting-Out n (left rest w) h
  startup_loop-Out n (arrives (startup parameters) ∷ rest) w h =
      start_session-Out n parameters (left rest w) h
  startup_loop-Out n (arrives ssl_request ∷ rest) w h =
      let first : Outcome (Unit {0}) × World =
        answer_ssl env w.conn.has_tls (length rest) (left rest w) in
      let h₁ : Waiting n first.1 =
        answer_ssl-Waiting n w.conn.has_tls (length rest) (left rest w) h in
      continue-Runs n first.0 (λ _ w₂. startup_loop env rest w₂) first.1 (Waiting-Out n first.1 h₁)
        (λ _. startup_loop-Out n rest first.1 h₁)
  startup_loop-Out n (arrives (cancel_request k) ∷ rest) w h =
      Out-Runs n
        (cancel_target env (get_connection_for_cancel_request k.process_id k.secret_key w.server) k
          (left rest w))
        (cancel_target-Out n (get_connection_for_cancel_request k.process_id k.secret_key w.server)
          k (left rest w) (Waiting-Out n (left rest w) h))
  startup_loop-Out n (arrives gss_enc_request ∷ rest) w h = Waiting-Out n (left rest w) h
