-- ===== src/Pool/Leases.antt =====
-- No connection leaks from `AcquireConnection`.
use gprxy.Common.{
  Extern, returns, fails, hangs, suc, ◌≡◌, refl, arith, Text, Outcome, ok, err, panics, blocks,
}
use gprxy.Pool.{
  ConnPool, Pools, get_or_create_pool, Manager, Acquiring, pinged, leased_from, with_pool,
  acquire_connection,
}

-- How many connections are out: one more after a success, and as many as before after an error.
abbrev pub Balanced : {C : Type 0} → Manager → Outcome C × Manager → Type 0
Balanced s (ok c, t) = t.leased ≡ suc s.leased
Balanced s (blocks, t) = Unit
Balanced s (_, t) = t.leased ≡ s.leased

module _ {C : Type 0} (a : Acquiring C) where
  pinged-Balanced : (c : C) (b : Extern (Unit {0})) (s : Manager) → Balanced s (pinged c b s)
  pinged-Balanced c (returns _) s = refl
  pinged-Balanced c fails s = omega arith
  pinged-Balanced c hangs s = tt

  leased_from-Balanced : (o : Extern C) (s : Manager) → Balanced s (leased_from a o s)
  leased_from-Balanced fails s = refl
  leased_from-Balanced hangs s = tt
  leased_from-Balanced (returns c) s = pinged-Balanced c (a.ping c) s

  with_pool-Balanced : (r : Outcome ConnPool × Pools) (s : Manager) → Balanced s (with_pool a r s)
  with_pool-Balanced (ok pool, m) s =
      leased_from-Balanced (a.acquired pool s.leased) (record s { pools = m })
  with_pool-Balanced (err e, m) s = refl
  with_pool-Balanced (panics, m) s = refl
  with_pool-Balanced (blocks, m) s = tt

  -- `AcquireConnection` leaves one more connection out if it succeeds, and none more if it fails,
  -- at whichever step: a connection that does not answer the ping is given back.
  pub acquire_connection-Balanced :
      (user database url : Text) (s : Manager)
      → Balanced s (acquire_connection a user database url s)
  unfolding acquire_connection
  acquire_connection-Balanced user database url s =
      with_pool-Balanced
        (get_or_create_pool a.making (record { user = user; database = database }) url s.pools) s
