-- ===== src/Pool.antt =====
-- internal/pool/manager.go. A pool, and a connection of it, is known by a number. Parsing the
-- connection string, making the pool, acquiring a connection and the ping are inputs.
pub mod Sharing
pub mod Leases
pub mod Stats
mod Tests
use gprxy.Common.{
  Extern, returns, fails, hangs, ℕ, suc, ◌-◌, ◌*◌, ◌≡◌, ◌↔◌, arith, refl, Bool, true, false, ◌&&◌,
  Option, none, some, List, Text, Text_eq, text_eq, text_eq_iff, Eq, ◌==◌, Map, lookup, insert,
  if◌then◌else◌, Outcome, ok, err, panics, blocks, bad_pool_config, pool_failed, acquire_failed,
  ping_failed, minute, second,
}

pub record PoolKey : Type 0 where
  pub user : Text
  pub database : Text

abbrev pub key_eq : PoolKey → PoolKey → Bool
key_eq a b = text_eq a.user b.user && text_eq a.database b.database

pub key_eq_iff : (a b : PoolKey) → (key_eq a b ≡ true) ↔ (a ≡ b)
key_eq_iff a b = ground (arith, text_eq_iff a.user b.user, text_eq_iff a.database b.database)

instance abbrev pub PoolKey_eq : Eq PoolKey
PoolKey_eq = record { beq = key_eq; beq_iff = key_eq_iff }

-- A `pgxpool.Pool`: its number, and the settings that it was made with. Times are in nanoseconds.
pub record ConnPool : Type 0 where
  pub id : ℕ
  pub url : Text
  pub max_conns : ℕ
  pub min_conns : ℕ
  pub max_conn_lifetime : ℕ
  pub max_conn_idle_time : ℕ
  pub health_check_period : ℕ
  pub connect_timeout : ℕ

abbrev pub Pools : Type 0
Pools = Map PoolKey ConnPool

-- One run of `GetOrCreatePool`: what the other goroutines do to the map between the two locks,
-- whether the connection string parses, and the pool that is made, if making it works.
pub record Making : Type 0 where
  pub others : Pools → Pools
  pub parses : Bool
  pub made : Option ℕ

abbrev pub new_pool : ℕ → Text → ConnPool
new_pool id url = record {
  id = id;
  url = url;
  max_conns = 5;
  min_conns = 0;
  max_conn_lifetime = 60 * minute;
  max_conn_idle_time = 30 * minute;
  health_check_period = minute;
  connect_timeout = 5 * second;
}

abbrev pub create : PoolKey → Text → Bool → Option ℕ → Pools → Outcome ConnPool × Pools
create key url false made m = (err bad_pool_config, m)
create key url true none m = (err pool_failed, m)
create key url true (some id) m = (ok (new_pool id url), insert key (new_pool id url) m)

-- Under the write lock.
abbrev pub or_create : Making → PoolKey → Text → Option ConnPool → Pools → Outcome ConnPool × Pools
or_create making key url (some pool) m = (ok pool, m)
or_create making key url none m = create key url making.parses making.made m

abbrev pub or_lock : Making → PoolKey → Text → Option ConnPool → Pools → Outcome ConnPool × Pools
or_lock making key url (some pool) m = (ok pool, m)
or_lock making key url none m =
    let m' = making.others m in or_create making key url (lookup key m') m'

unfoldable pub get_or_create_pool : Making → PoolKey → Text → Pools → Outcome ConnPool × Pools
get_or_create_pool making key url m = or_lock making key url (lookup key m) m

-- The pools, and how many connections are out.
pub record Manager : Type 0 where
  pub pools : Pools
  pub leased : ℕ

-- One run of `AcquireConnection` yields a connection of the type `C`. `Acquire` and `Ping` of
-- pgxpool get `context.Background()`: `acquired pool n`, with `n` connections out, hangs while the
-- pool has `max_conns` connections in use and none comes back, and `ping` on a silent PostgreSQL.
pub record Acquiring (C : Type 0) : Type 0 where
  pub making : Making
  pub acquired : ConnPool → ℕ → Extern C
  pub ping : C → Extern (Unit {0})

abbrev pub pinged : {C : Type 0} → C → Extern (Unit {0}) → Manager → Outcome C × Manager
pinged c (returns _) s = (ok c, record s { leased = suc s.leased })
-- `Release` gives the connection back.
pinged c fails s = (err ping_failed, record s { leased = suc s.leased - 1 })
pinged c hangs s = (blocks, record s { leased = suc s.leased })

abbrev pub leased_from : {C : Type 0} → Acquiring C → Extern C → Manager → Outcome C × Manager
leased_from a (returns c) s = pinged c (a.ping c) s
leased_from a fails s = (err acquire_failed, s)
leased_from a hangs s = (blocks, s)

abbrev pub with_pool :
    {C : Type 0} → Acquiring C → Outcome ConnPool × Pools → Manager → Outcome C × Manager
with_pool a (ok pool, m) s = leased_from a (a.acquired pool s.leased) (record s { pools = m })
with_pool a (err e, m) s = (err e, record s { pools = m })
with_pool a (panics, m) s = (panics, record s { pools = m })
with_pool a (blocks, m) s = (blocks, record s { pools = m })

unfoldable pub acquire_connection :
    {C : Type 0} → Acquiring C → Text → Text → Text → Manager → Outcome C × Manager
unfolding get_or_create_pool
acquire_connection a user database url s =
    with_pool a
      (get_or_create_pool a.making (record { user = user; database = database }) url s.pools) s
