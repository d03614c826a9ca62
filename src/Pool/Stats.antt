-- ===== src/Pool/Stats.antt =====
-- internal/pool/stats.go. The counters of a pool are those that pgxpool reports.
use gprxy.Common.{Option, none, some, List, [], ◌∷◌, Text, codes, lookup}
use gprxy.Logger.{Logger, debug, warn}
use gprxy.Pool.{PoolKey_eq, ConnPool, Pools}

-- The counters, as they are printed.
pub record Stats : Type 0 where
  pub total_conns : Text
  pub acquired_conns : Text
  pub idle_conns : Text

module _ (sprintf : Text → List Text → Text) (stat : ConnPool → Stats) where
  abbrev pub log_found : Text → Text → Option ConnPool → Logger → Logger
  log_found user database none l =
      warn sprintf (codes "no pool found for user %s and database: %s") (user ∷ database ∷ []) l
  log_found user database (some pool) l =
      let s = stat pool in
      debug sprintf (codes "pool stats for [%s,%s] - total: %d, acquired: %d, idle: %d")
        (user ∷ database ∷ s.total_conns ∷ s.acquired_conns ∷ s.idle_conns ∷ []) l

  -- The map of pools is read under its lock, and nothing is changed but the log.
  unfoldable pub log_pool_stats : Text → Text → Pools → Logger → Logger
  unfolding debug warn
  log_pool_stats user database pools l =
      log_found user database (lookup (record { user = user; database = database }) pools) l
