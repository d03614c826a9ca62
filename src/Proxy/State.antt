-- ===== src/Proxy/State.antt =====
-- internal/proxy/connection.go: a connection and what it shares with the others. A pool connection
-- carries the messages that PostgreSQL will send on it and the sink for what it is sent.
use gprxy.Common.{Extern, ℕ, Bool, Option, List, Text, ℤ, Event, Sink}
use gprxy.Protocol.{BackendKeyData, BackendMessage, FrontendMessage, StartupRequest, Packet}
use gprxy.Config.{Config}
use gprxy.Roles.{RoleMapper}
use gprxy.Jwt.Keys.{Validator, Round}
use gprxy.Jwt.{Parser}
use gprxy.Auth.Backend.{Scram}
use gprxy.Pool.{Manager, Acquiring}
use gprxy.Server.{Server}

-- `pgxpool.Conn`, with the pgproto3 frontend over it. `exec` says whether `Exec` of a command
-- succeeds, and `executed` lists the commands that were tried.
pub record PoolConn : Type 0 where
  pub process_id : ℕ
  pub secret_key : ℕ
  pub inbox : List (Event BackendMessage)
  pub sink : Sink FrontendMessage
  pub exec : Text → Extern (Unit {0})
  pub executed : List Text

pub record Connection : Type 0 where
  -- `id` stands for the pointer to the connection.
  pub id : ℕ
  pub requests : List (Event StartupRequest)
  pub inbox : List (Event FrontendMessage)
  pub client : Sink Packet
  pub has_tls : Bool
  -- The connection was upgraded to TLS.
  pub secure : Bool
  pub config : Config
  pub pool_conn : Option PoolConn
  pub user : Text
  pub db : Text
  pub key : Option BackendKeyData

pub record World : Type 0 where
  pub conn : Connection
  pub server : Server
  pub validator : Validator
  pub manager : Manager
  -- What was written to PostgreSQL for cancel requests.
  pub cancels : List (List ℕ)

-- What one connection meets: the libraries, the clocks, and the luck of its calls to the outside.
pub record Env (Conv : Type 0) : Type 0 where
  pub scram : Scram Conv
  pub md5_hex : Text → Text
  pub wide : ℕ → ℕ
  pub parser : Parser
  pub mapper : RoleMapper
  pub round : Round
  pub now : ℤ
  -- The temporary connection for the authentication.
  pub dialled : Bool
  pub script : List (Event BackendMessage)
  pub auth_sink : Sink FrontendMessage
  pub acquiring : Acquiring PoolConn
  -- Whether the TLS handshake works, by the number of startup requests still to come.
  pub handshakes : ℕ → Bool
  -- The connection to PostgreSQL for a cancel request.
  pub cancel_dialled : Bool
  pub cancel_written : Bool
  -- Whether the pool connection of a registered connection has not been released.
  pub usable : ℕ → Bool
