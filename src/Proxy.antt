-- ===== src/Proxy.antt =====
-- internal/proxy/connection.go: `handleConnection`, from the startup to the deferred cleanup.
pub mod State
pub mod Cancel
pub mod Messages
pub mod Startup
pub mod Relaying
pub mod Greeting
pub mod Opening
pub mod Cancelling
pub mod Reaching
pub mod Rounds
pub mod Counting
pub mod Cleanup
pub mod Silence
pub mod Leasing
pub mod Returning
pub mod Ending
pub mod Serving
pub mod Showing
mod Tests
use gprxy.Common.{
  Extern, returns, fails, hangs, reset_failed, ℕ, ◌-◌, Bool, true, false, Option, none, some, List,
  [], ◌∷◌, ◌++◌, Text, codes, Event, arrives, lost, Outcome, ok, err, panics, blocks, Act,
  receive_failed, if◌then◌else◌,
}
use gprxy.Protocol.{BackendKeyData, FrontendMessage}
use gprxy.Server.{unregister_connection}
use State.{PoolConn, Connection, World, Env}
use Messages.{handle_received}
use Startup.{handle_startup_message}

abbrev pub go_on : Outcome (Unit {0}) × World → Act World (Unit {0}) → Outcome (Unit {0}) × World
go_on (ok _, w) next = next w
go_on (r, w) next = (r, w)

-- The loop of `handleMessage`, over what the client sends.
unfoldable pub message_loop : List (Event FrontendMessage) → Act World (Unit {0})
unfolding handle_received
message_loop [] w = (blocks, w)
message_loop (lost ∷ rest) w =
    (err receive_failed, record w { conn = record (w.conn) { inbox = rest } })
message_loop (arrives m ∷ rest) w =
    go_on (handle_received m (record w { conn = record (w.conn) { inbox = rest } }))
      (message_loop rest)

abbrev pub tried : Text → PoolConn → PoolConn
tried sql p = record p { executed = p.executed ++ sql ∷ [] }

abbrev pub after_discard : Extern (Unit {0}) → PoolConn → Outcome (Unit {0}) × PoolConn
after_discard (returns _) p = (ok tt, p)
after_discard fails p = (err reset_failed, p)
after_discard hangs p = (blocks, p)

abbrev pub after_rollback : Extern (Unit {0}) → PoolConn → Outcome (Unit {0}) × PoolConn
after_rollback (returns _) p =
    after_discard (p.exec (codes "DISCARD ALL")) (tried (codes "DISCARD ALL") p)
after_rollback fails p = (err reset_failed, p)
after_rollback hangs p = (blocks, p)

-- `fullResetBeforeRelease`: DISCARD ALL only if ROLLBACK worked. Both wait for PostgreSQL without a
-- deadline.
unfoldable pub full_reset : PoolConn → Outcome (Unit {0}) × PoolConn
full_reset p = after_rollback (p.exec (codes "ROLLBACK")) (tried (codes "ROLLBACK") p)

abbrev pub unregister : Option BackendKeyData → World → World
unregister none w = w
unregister (some k) w = record w {
  server = unregister_connection k.process_id k.secret_key w.conn.id w.server;
}

abbrev pub with_pool_conn : PoolConn → World → World
with_pool_conn p w = record w { conn = record (w.conn) { pool_conn = some p } }

-- `Release`
abbrev pub release : World → World
release w = record w { manager = record (w.manager) { leased = w.manager.leased - 1 } }

-- The pool connection is released whether the reset worked or not, once that has come to an end.
abbrev pub after_reset : Outcome (Unit {0}) × PoolConn → Act World (Unit {0})
after_reset (blocks, p) w = (blocks, with_pool_conn p w)
after_reset (r, p) w = (ok tt, unregister w.conn.key (release (with_pool_conn p w)))

abbrev pub give_back : Option PoolConn → Act World (Unit {0})
give_back none w = (ok tt, unregister w.conn.key w)
give_back (some p) w = after_reset (full_reset p) w

-- The deferred function: release first, then unregister.
unfoldable pub cleanup : Act World (Unit {0})
unfolding full_reset
cleanup w = give_back w.conn.pool_conn w

-- The end of the connection, when its deferred function has come to an end.
abbrev pub deferred : Outcome (Unit {0}) → Outcome (Unit {0}) × World → Outcome (Unit {0}) × World
deferred r (blocks, w) = (blocks, w)
deferred r (c, w) = (r, w)

-- The deferred function runs on a return and on a panic, not while the connection waits.
abbrev pub closing : Outcome (Unit {0}) × World → Outcome (Unit {0}) × World
closing (blocks, w) = (blocks, w)
closing (r, w) = deferred r (cleanup w)

unfoldable pub handle_connection : {Conv : Type 0} → Env Conv → World → Outcome (Unit {0}) × World
unfolding handle_startup_message message_loop
handle_connection env w =
    closing (go_on (handle_startup_message env w) (λ w₁. message_loop w₁.conn.inbox w₁))
