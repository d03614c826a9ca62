-- ===== src/Proxy/Returning.antt =====
-- internal/proxy/connection.go: the deferred function comes to its end when the commands of its reset
-- return.
use gprxy.Proxy.Silence.{Calm, PoolCalm, Live-PoolCalm, Settles}
use gprxy.Common.{
  refl, arith, Extern, returns, fails, hangs, ◌≢◌, Option, none, some, codes, Outcome, ok, err,
  panics, blocks,
}
use gprxy.Proxy.State.{PoolConn, World}
use gprxy.Proxy.{
  cleanup, full_reset, tried, after_discard, after_rollback, after_reset, give_back, deferred,
  closing,
}

after_discard-ends :
    (o : Extern (Unit {0})) (p : PoolConn) → o ≢ hangs → (after_discard o p).0 ≢ blocks
after_discard-ends (returns _) p h e = absurd (ground arith)
after_discard-ends fails p h e = absurd (ground arith)
after_discard-ends hangs p h e = h refl

after_rollback-ends :
    (o : Extern (Unit {0})) (p : PoolConn) → o ≢ hangs → Calm p → (after_rollback o p).0 ≢ blocks
after_rollback-ends (returns _) p h c e =
    after_discard-ends (p.exec (codes "DISCARD ALL")) (tried (codes "DISCARD ALL") p)
      (c (codes "DISCARD ALL")) e
after_rollback-ends fails p h c e = absurd (ground arith)
after_rollback-ends hangs p h c e = h refl

after_reset-ends :
    (r : Outcome (Unit {0}) × PoolConn) (w : World) → r.0 ≢ blocks → (after_reset r w).0 ≢ blocks
after_reset-ends (ok _, p) w h e = absurd (ground arith)
after_reset-ends (err x, p) w h e = absurd (ground arith)
after_reset-ends (panics, p) w h e = absurd (ground arith)
after_reset-ends (blocks, p) w h e = h refl

give_back-ends : (o : Option PoolConn) (w : World) → PoolCalm o → (give_back o w).0 ≢ blocks
unfolding full_reset
give_back-ends none w h e = absurd (ground arith)
give_back-ends (some p) w h e =
    after_reset-ends (full_reset p) w
      (after_rollback-ends (p.exec (codes "ROLLBACK")) (tried (codes "ROLLBACK") p)
        (h (codes "ROLLBACK")) h)
      e

deferred-ends :
    (c : Outcome (Unit {0})) (r : Outcome (Unit {0}) × World)
    → c ≢ blocks
    → r.0 ≢ blocks
    → (deferred c r).0 ≢ blocks
deferred-ends c (ok _, w) h g e = h e
deferred-ends c (err x, w) h g e = h e
deferred-ends c (panics, w) h g e = h e
deferred-ends c (blocks, w) h g e = g refl

pub closing-ends : (r : Outcome (Unit {0}) × World) → Settles r → (closing r).0 ≢ blocks
unfolding cleanup
closing-ends (ok u, w) h =
    deferred-ends (ok u) (cleanup w) (λ e. ground arith)
      (give_back-ends w.conn.pool_conn w (Live-PoolCalm w h))
closing-ends (err x, w) h =
    deferred-ends (err x) (cleanup w) (λ e. ground arith) (give_back-ends w.conn.pool_conn w h)
closing-ends (panics, w) h =
    deferred-ends panics (cleanup w) (λ e. ground arith) (give_back-ends w.conn.pool_conn w h)
closing-ends (blocks, w) h = absurd h
