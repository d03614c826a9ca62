-- ===== src/Lib.antt =====
-- gprxy is a proxy between PostgreSQL clients and a PostgreSQL server. It takes connections, asks
-- each client for a password that may be a token of an identity provider, maps the roles of the
-- token to a service account, authenticates with PostgreSQL on a temporary connection, and relays
-- queries over a pooled one. The same program is the client that logs in with the identity provider
-- and connects. This library models its code in Go.
--
-- The parts, with the paths from the root of the repository:
--   Roles     internal/auth/roles.go: NewRoleMapper, loadFromEnvironment, MapRoleToServiceAccount,
--             handleNoRoles, AddRoleMapping and GetAllRoles
--   Jwt       internal/auth/jwt.go: ValidateJWT, validateAudience and extractRoles; the key cache,
--             getPublicKey and fetchJWKS, is in Jwt/Keys; decoded JSON is in Jwt/Values
--   Base64    encoding/base64.RawURLEncoding, as far as the key cache and internal/cli use it
--   Auth      internal/auth/authenticator.go and errors.go: AuthenticateUser and
--             requestPasswordFromClient; authenticateWithBackend is in Auth/Backend
--   Config    internal/config/config.go
--   Pool      internal/pool/manager.go: GetOrCreatePool and AcquireConnection; stats.go is in
--             Pool/Stats
--   Server    internal/proxy/server.go: the registry for cancel requests; Server/Shutdown has Start
--   Proxy     internal/proxy/connection.go: handleConnection; Proxy/Startup has startup.go and
--             errors.go, Proxy/Messages has message.go, Proxy/Cancel the forwarded cancel request
--   Tls       internal/tls: Load, and UpgradeToTLS of the client
--   Logger    internal/logger/logger.go
--   Form      net/url, as far as internal/cli builds its requests with it
--   Cli       internal/cli: Cli/Start has start.go, root.go, main.go and InitializeAuth; Cli/Login,
--             Cli/Browser and Cli/Callback have login.go, and Cli/Login/Channels the receive of
--             the code beside the goroutine of the callback server; Cli/Tokens, Cli/Creds and
--             Cli/Refresh have loginStatus.go; Cli/Connect has connect.go
--   Protocol  the messages of pgproto3 that the program tells apart; Protocol/Stages has the
--             abstract protocol of what a client may see
--   Common    what the parts share
-- handleConnection runs the startup, which calls AuthenticateUser, then the pool manager and the
-- registry, and then the query loop; its deferred function releases and unregisters.
-- AuthenticateUser calls ValidateJWT, which calls the key cache, and then the role mapper. The
-- command start makes the validator, the role mapper and the server; login and the refresh write
-- the file of credentials, and connect sends their access token to the proxy as the password.
--
-- A function that fails returns an `Outcome`: a result, an error, a panic, or `blocks` for a call
-- that waits for ever. Stateful code is a function of its state to an outcome and the new state, so
-- what was written before an error stays written. A call that is given no deadline, of the
-- connection pool or on a pool connection, may hang as well as return or fail (`Extern`). What a
-- peer sends is a list of events, a message or a lost connection; its end is silence, and a read
-- there blocks. What is sent to a peer is a `Sink`, which has the messages sent and says which
-- writes fail. Loops recurse on the events, so there is no fuel. The seconds of a token are
-- converted to 64 bits, and their time wraps, as in Go. A mutex makes a method one step; where a
-- method takes two locks, what other goroutines do between them is an argument. Text is a list of
-- character codes.
--
-- Code outside the repository is a parameter: golang-jwt (`Parser`), scram (`Scram`), the MD5
-- digest, `unicode.ToLower` above ASCII (`wide`), pgxpool (`Acquiring` and `Making`), the answer of
-- the key server (`Reply`), the clock, the TLS handshake, and for the commands the environment, the
-- JSON codec, `url.Parse` and the HTTP client (`Shell`), the disk (`Disk`), SHA-256 and what the
-- random source fills a buffer with. The Go map is an association list, and a connection or pool a
-- number. Log lines are left out, except where they dereference a pointer; the logger itself is in
-- Logger.
--
-- Not modelled: the parsing of flags and the dispatch of commands, which cobra does; the HTML pages
-- and the HTTP servers around the callback handler; and the scripts and manifests of the
-- deployment.
pub mod Common
pub mod Roles
pub mod Base64
pub mod Form
pub mod Jwt
pub mod Protocol
pub mod Auth
pub mod Logger
pub mod Config
pub mod Pool
pub mod Server
pub mod Proxy
pub mod Tls
pub mod Cli
