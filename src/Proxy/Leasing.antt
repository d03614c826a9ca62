-- ===== src/Proxy/Leasing.antt =====
-- internal/proxy/connection.go: `connectBackend` comes to an end, with a connection of the pool on which
-- PostgreSQL does not fall silent.
use gprxy.Proxy.Silence.{IsResponsive, Live-PoolCalm, Live, Settles}
use gprxy.Common.{
  ◌≢◌, Extern, returns, fails, hangs, ℕ, ℕ_eq, ◌≡◌, refl, Bool, true, false, Option, none, some,
  Text, Text_eq, lookup, Outcome, ok, err, panics, blocks, Ends,
}
use gprxy.Config.{build_connection_string}
use gprxy.Pool.{
  PoolKey, PoolKey_eq, ConnPool, Pools, Making, Manager, create, or_create, or_lock,
  get_or_create_pool, pinged, leased_from, with_pool, acquire_connection,
}
use gprxy.Proxy.State.{PoolConn, World, Env}
use gprxy.Proxy.Startup.{connected, connect_backend}

module _ {Conv : Type 0} (env : Env Conv) where
  -- The pool does not keep `Acquire` waiting, with so many connections out, and a connection that it
  -- hands out is not one on which PostgreSQL falls silent, neither at the ping nor later.
  abbrev pub Responsive : Type 0
  Responsive =
      (pool : ConnPool) (n : ℕ)
      → (env.acquiring.acquired pool n ≢ hangs)
        × ((p : PoolConn)
            → env.acquiring.acquired pool n ≡ returns p
            → IsResponsive p × (env.acquiring.ping p ≢ hangs))

  pinged-Ends :
      (p : PoolConn) (b : Extern (Unit {0})) (m : Manager)
      → IsResponsive p
      → b ≢ hangs
      → Ends (λ q _. IsResponsive q) (pinged p b m)
  pinged-Ends p (returns _) m c h = c
  pinged-Ends p fails m c h = tt
  pinged-Ends p hangs m c h = h refl

  leased_from-Ends :
      (o : Extern PoolConn) (m : Manager)
      → o ≢ hangs
      → ((p : PoolConn) → o ≡ returns p → IsResponsive p × (env.acquiring.ping p ≢ hangs))
      → Ends (λ q _. IsResponsive q) (leased_from env.acquiring o m)
  leased_from-Ends fails m c h = tt
  leased_from-Ends hangs m c h = c refl
  leased_from-Ends (returns p) m c h =
      pinged-Ends p (env.acquiring.ping p) m (h p refl).0 (h p refl).1

  create-Ends :
      (key : PoolKey) (url : Text) (b : Bool) (o : Option ℕ) (m : Pools)
      → Ends (λ _ _. Unit) (create key url b o m)
  create-Ends key url false o m = tt
  create-Ends key url true none m = tt
  create-Ends key url true (some id) m = tt

  or_create-Ends :
      (making : Making) (key : PoolKey) (url : Text) (o : Option ConnPool) (m : Pools)
      → Ends (λ _ _. Unit) (or_create making key url o m)
  or_create-Ends making key url none m = create-Ends key url making.parses making.made m
  or_create-Ends making key url (some pool) m = tt

  or_lock-Ends :
      (making : Making) (key : PoolKey) (url : Text) (o : Option ConnPool) (m : Pools)
      → Ends (λ _ _. Unit) (or_lock making key url o m)
  or_lock-Ends making key url none m =
      or_create-Ends making key url (lookup key (making.others m)) (making.others m)
  or_lock-Ends making key url (some pool) m = tt

  with_pool-Ends :
      (r : Outcome ConnPool × Pools) (s : Manager)
      → Responsive
      → Ends (λ _ _. Unit) r
      → Ends (λ q _. IsResponsive q) (with_pool env.acquiring r s)
  with_pool-Ends (ok pool, m) s h e =
      leased_from-Ends (env.acquiring.acquired pool s.leased) (record s { pools = m })
        (h pool s.leased).0 (h pool s.leased).1
  with_pool-Ends (err x, m) s h e = tt
  with_pool-Ends (panics, m) s h e = tt
  with_pool-Ends (blocks, m) s h e = e

  connected-Settles :
      (r : Outcome PoolConn × Manager) (w : World)
      → Live w
      → Ends (λ q _. IsResponsive q) r
      → Settles (connected r w)
  connected-Settles (ok p, m) w h e = (h.0, e)
  connected-Settles (err x, m) w h e = Live-PoolCalm w h
  connected-Settles (panics, m) w h e = Live-PoolCalm w h
  connected-Settles (blocks, m) w h e = e

  pub connect_backend-Settles :
      (database user : Text) (w : World)
      → Responsive
      → Live w
      → Settles (connect_backend env database user w)
  unfolding connect_backend acquire_connection get_or_create_pool
  connect_backend-Settles database user w h l =
      let key : PoolKey = record { user = user; database = database } in
      let url = build_connection_string w.conn.config database in
      let pools = w.manager.pools in
      connected-Settles _ w l (
        with_pool-Ends (get_or_create_pool env.acquiring.making key url pools) w.manager h
          (or_lock-Ends env.acquiring.making key url (lookup key pools) pools))
