-- ===== src/Cli/Connect/Admission.antt =====
-- `gprxy connect` against the proxy: the requests and the password that the client sends, as the
-- proxy handles them.
use gprxy.Common.{List, [], ◌∷◌, Text_eq, Event, arrives}
use gprxy.Protocol.{FrontendMessage, password_message, StartupRequest, startup, ssl_request}
use gprxy.Auth.{Login}
use gprxy.Auth.Credentials.{IsLogin}
use gprxy.Auth.Speaking.{SpeaksAs}
use gprxy.Proxy.State.{World, Env}
use gprxy.Proxy.Greeting.{attempt}
use gprxy.Proxy.Opening.{IsStarted}
use gprxy.Cli.{SavedCreds}
use gprxy.Cli.Connect.{ConnectionConfig, startup_parameters}

-- What `connect` sends: a request for TLS, the startup message, and the access token.
abbrev pub connect_requests : ConnectionConfig → SavedCreds → List (Event StartupRequest)
connect_requests c creds = arrives ssl_request ∷ arrives (startup (startup_parameters c creds)) ∷ []

abbrev pub connect_inbox : SavedCreds → List (Event FrontendMessage)
connect_inbox creds = arrives (password_message creds.access_token) ∷ []

module _ {Conv : Type 0} (env : Env Conv) (c : ConnectionConfig) (creds : SavedCreds) where
  -- The session, and the login under which PostgreSQL was spoken to and accepted it.
  pub record IsConnected (w w' : World) : Type 0 where
    pub started : IsStarted env w.conn.requests w w'
    pub login : Login
    pub entitled :
        IsLogin env.wide env.parser env.mapper env.round env.now started.session.admitted.validator
          creds.user_info.email creds.access_token login
    pub spoken :
        SpeaksAs env.scram env.md5_hex env.script login
          (attempt env started.parameters started.before)
          started.session.outcome
