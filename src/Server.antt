-- ===== src/Server.antt =====
-- internal/proxy/server.go: the registry of connections for cancel requests. A connection is known
-- by a number. `usable c` says that the pool connection of `c` has not been released: pgxpool
-- forbids any other method after `Release`, and the log lines of `registerConnection` call some.
pub mod Keys
pub mod Registry
pub mod Traffic
pub mod Shutdown
mod Tests
use gprxy.Common.{
  ℕ, ◌*◌, ◌%◌, ◌^◌, bit_or, Bool, true, false, Option, none, some, List, [], ◌∷◌, ◌&&◌, Map, lookup,
  insert, remove, ℕ_eq, if◌then◌else◌, Outcome, ok, panics,
}
use gprxy.Config.{Config}

pub record Server : Type 0 where
  pub config : Config
  pub has_tls : Bool
  pub active_connections : Map ℕ ℕ

unfoldable pub new_server : Config → Bool → Server
new_server config tls = record { config = config; has_tls = tls; active_connections = [] }

-- `(uint64(processId) << 32) | uint64(secretKey)`
unfoldable pub make_cancel_key : ℕ → ℕ → ℕ
make_cancel_key process_id secret_key = bit_or (process_id * 2 ^ 32 % 2 ^ 64) secret_key

abbrev pub all_usable : (ℕ → Bool) → Map ℕ ℕ → Bool
all_usable usable [] = true
all_usable usable ((k, c) ∷ m) = usable c && all_usable usable m

-- The log lines look at the pool connection of every registered connection.
unfoldable pub register_connection : (ℕ → Bool) → ℕ → ℕ → ℕ → Server → Outcome (Unit {0}) × Server
register_connection usable process_id secret_key conn s =
    let m = insert (make_cancel_key process_id secret_key) conn s.active_connections in
    let s' : Server = record s { active_connections = m } in
    if all_usable usable m then (ok tt, s') else (panics, s')

-- The connection is passed on and not looked at.
unfoldable pub unregister_connection : ℕ → ℕ → ℕ → Server → Server
unregister_connection process_id secret_key conn s = record s {
  active_connections = remove (make_cancel_key process_id secret_key) s.active_connections;
}

unfoldable pub get_connection_for_cancel_request : ℕ → ℕ → Server → Option ℕ
get_connection_for_cancel_request process_id secret_key s =
    lookup (make_cancel_key process_id secret_key) s.active_connections
