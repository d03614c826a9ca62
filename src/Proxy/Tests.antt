-- ===== src/Proxy/Tests.antt =====
-- internal/proxy on one session: its startup, two queries, the cancel request and the end.
use mathlib.Core.Path.{subst}
use gprxy.Proxy.Silence.{IsResponsive}
use gprxy.Proxy.Leasing.{Responsive}
use gprxy.Protocol.Stages.{Conforms}
use gprxy.Proxy.Showing.{handle_connection-Conforms}
use gprxy.Server.Traffic.{Call, registers, unregisters, calls}
use gprxy.Proxy.Reaching.{handle_cancel-reaches}
use gprxy.Proxy.Ending.{handle_connection-ends}
use gprxy.Cli.{SavedCreds}
use gprxy.Cli.Connect.{ConnectionConfig}
use gprxy.Cli.Connect.Admission.{connect_requests, connect_inbox}
use gprxy.Tls.{plain, Line, ssl_request_bytes, with_handshake, upgrade_to_tls}
use gprxy.Tls.Agreement.{answer_of, upgrade_to_tls-answer_ssl}
use gprxy.Common.{
  Extern, ◌||◌, lost, if◌then◌else◌, ◌<◌, ◌≡◌, ℕ, ◌≢◌, ◌⊎◌, refl, true, false, none, some, List, [],
  ◌∷◌, ◌++◌, map, length, arith, All, Text_eq, text_eq, codes, has_prefix, count_char, lookup,
  insert, remove, unix, pos, Event, arrives, send, open_sink, ok, err, panics, blocks,
  client_terminated, cancel_done,
}
use gprxy.Protocol.{
  BackendKeyData, FrontendMessage, Packet, message, byte, startup, ssl_request, gss_enc_request,
  password_message, query, parse, sync, terminate, authentication_ok,
  authentication_cleartext_password, backend_key_data, ready_for_query, command_complete,
  other_backend,
}
use gprxy.Config.{Config, build_connection_string}
use gprxy.Jwt.Keys.{Reply, new_validator}
use gprxy.Pool.{get_or_create_pool, acquire_connection}
use gprxy.Server.{
  make_cancel_key, new_server, register_connection, unregister_connection,
  get_connection_for_cancel_request,
}
use gprxy.Auth.{
  send_error_to_client, refuse, request_password, is_jwt, resolve, with_backend, start_backend,
  authenticate_user,
}
use gprxy.Auth.Backend.{tell, reply, auth_step, auth_loop}
use gprxy.Proxy.State.{PoolConn, Connection, World, Env}
use gprxy.Proxy.Cancel.{
  put_uint32, cancel_message, send_cancel, read_words, read_words-cancel_message,
}
use gprxy.Proxy.Messages.{relay, handle_received, handle_message}
use gprxy.Proxy.Startup.{
  write, tell_error, authenticate, connect_backend, register, finish_startup, start_session,
  handle_cancel, answer_ssl, startup_loop, handle_startup_message,
}
use gprxy.Proxy.Relaying.{IsRound, handle_message-IsRound, handle_message-stalls}
use gprxy.Proxy.Cancelling.{handle_cancel_lem}
use gprxy.Proxy.Cleanup.{Tidy, handle_connection-Tidy, handle_connection-unauthenticated}
use gprxy.Proxy.{message_loop, full_reset, cleanup, handle_connection}

proxy : Unit {0}
unfolding make_cancel_key handle_connection cleanup full_reset message_loop handle_message
    handle_received relay handle_startup_message startup_loop answer_ssl handle_cancel send_cancel
    cancel_message put_uint32 start_session finish_startup register connect_backend authenticate
    tell_error write authenticate_user start_backend with_backend resolve is_jwt request_password
    refuse send_error_to_client auth_loop auth_step tell reply send acquire_connection
    get_or_create_pool register_connection unregister_connection get_connection_for_cancel_request
    new_server build_connection_string lookup insert remove text_eq has_prefix count_char
proxy = tt

abbrev config : Config
config = record {
  proxy_host = codes "0.0.0.0";
  proxy_port = codes "7777";
  db_host = codes "db";
  service_user = codes "svc";
  service_pass = codes "pw";
}

abbrev auth_key : BackendKeyData
auth_key = record { process_id = 3; secret_key = 4 }

abbrev pool_conn : PoolConn
pool_conn = record {
  process_id = 5;
  secret_key = 9;
  inbox =
      arrives (command_complete (codes "SELECT 1"))
      ∷ arrives (ready_for_query b'I')
      ∷ arrives (ready_for_query b'T')
      ∷ [];
  sink = open_sink;
  exec = λ sql. Extern.returns tt;
  executed = [];
}

abbrev env : Env (Unit {0})
env = record {
  scram = record { new_client = λ u p. none; step = λ c t. none };
  md5_hex = λ t. t;
  wide = λ c. c;
  parser = record { read = λ raw. none; verified = λ raw k. none };
  mapper = record { role_to_account = []; default_role = [] };
  round = record {
    at_read = unix (pos 0);
    others = λ v. v;
    at_lock = unix (pos 0);
    reply = Reply.no_answer;
    at_fetch = unix (pos 0);
  };
  now = unix (pos 0);
  dialled = true;
  script =
      arrives authentication_cleartext_password
      ∷ arrives authentication_ok
      ∷ arrives (backend_key_data auth_key)
      ∷ arrives (ready_for_query b'I')
      ∷ [];
  auth_sink = open_sink;
  acquiring = record {
    making = record { others = λ m. m; parses = true; made = some 7 };
    acquired = λ pool n. Extern.returns pool_conn;
    ping = λ c. Extern.returns tt;
  };
  handshakes = λ n. true;
  cancel_dialled = true;
  cancel_written = true;
  usable = λ c. true;
}

abbrev client : Connection
client = record {
  id = 1;
  requests =
      arrives ssl_request
      ∷ arrives (startup ((codes "user", codes "ann") ∷ (codes "database", codes "app") ∷ []))
      ∷ [];
  inbox =
      arrives (password_message (codes "secret"))
      ∷ arrives (query (codes "SELECT 1"))
      ∷ arrives (query (codes "BEGIN"))
      ∷ arrives terminate
      ∷ [];
  client = open_sink;
  has_tls = true;
  secure = false;
  config = config;
  pool_conn = none;
  user = [];
  db = [];
  key = none;
}

abbrev world : World
world = record {
  conn = client;
  server = record { config = config; has_tls = true; active_connections = [] };
  validator = new_validator (codes "idp") (codes "api") (codes "https://idp/keys");
  manager = record { pools = []; leased = 0 };
  cancels = [];
}

abbrev started : World
started = (handle_startup_message env world).1

handle_startup_message_test : handle_startup_message env world ≡ (ok tt, started)
unfolding proxy
handle_startup_message_test = refl

abbrev greeting : List Packet
greeting =
    byte b'S'
    ∷ message authentication_cleartext_password
    ∷ message authentication_ok
    ∷ message (backend_key_data (record { process_id = 5; secret_key = 9 }))
    ∷ message (ready_for_query b'I')
    ∷ []

-- The whole session: the client reads the answers of both queries, the pool connection is reset
-- and given back, and the registry is empty.
handle_connection_tests :
    ((handle_connection env world).0 ≡ err client_terminated)
    × ((handle_connection env world).1.conn.client.sent
        ≡ greeting
          ++ message (command_complete (codes "SELECT 1"))
            ∷ message (ready_for_query b'I')
            ∷ message (ready_for_query b'T')
            ∷ [])
    × ((handle_connection env world).1.server.active_connections ≡ [])
    × ((handle_connection env world).1.manager.leased ≡ 0)
unfolding proxy
handle_connection_tests = (refl, refl, refl, refl)

handle_connection-Tidy_example : Tidy 0 (handle_connection env world).1
unfolding proxy
handle_connection-Tidy_example = handle_connection-Tidy env world refl (λ e. ground arith)

-- A session after its startup that sends one query.
abbrev asking : FrontendMessage → PoolConn → World
asking m p = record world {
  conn = record client { requests = []; inbox = arrives m ∷ []; pool_conn = some p };
}

abbrev answered : World
answered = (handle_message (asking (query (codes "SELECT 1")) pool_conn)).1

handle_message_test :
    handle_message (asking (query (codes "SELECT 1")) pool_conn) ≡ (ok tt, answered)
unfolding proxy
handle_message_test = refl

handle_message-IsRound_example :
    (m : FrontendMessage) × (rest : List (Event FrontendMessage)) × (p : PoolConn) × (p' : PoolConn)
    × ((asking (query (codes "SELECT 1")) pool_conn).conn.inbox ≡ arrives m ∷ rest)
    × (m ≢ terminate)
    × IsRound m p p' (asking (query (codes "SELECT 1")) pool_conn) answered
handle_message-IsRound_example =
    handle_message-IsRound (asking (query (codes "SELECT 1")) pool_conn) answered
      handle_message_test

-- PostgreSQL answers a Parse with ParseComplete and no ReadyForQuery.
abbrev parsing : PoolConn
parsing = record pool_conn { inbox = arrives (other_backend b'1') ∷ [] }

handle_message-stalls_example :
    (w' : World) × (handle_message (asking (parse (codes "SELECT 1")) parsing) ≡ (blocks, w'))
    × (w'.conn.inbox ≡ [])
    × (w'.conn.client.sent ≡ [] ++ map message (other_backend b'1' ∷ []))
handle_message-stalls_example =
    handle_message-stalls (asking (parse (codes "SELECT 1")) parsing) (parse (codes "SELECT 1")) []
      parsing (other_backend b'1' ∷ []) refl (λ e. ground arith) refl refl (refl, tt) (λ n. refl)
      (λ n. refl)

abbrev intruder : World
intruder = record world {
  conn = record client { requests = arrives gss_enc_request ∷ []; inbox = arrives sync ∷ [] };
}

handle_connection-unauthenticated_example : (handle_connection env intruder).0 ≡ panics
handle_connection-unauthenticated_example =
    handle_connection-unauthenticated env intruder [] sync [] refl refl refl

abbrev pool_key : BackendKeyData
pool_key = record { process_id = 5; secret_key = 9 }

abbrev registered : World
registered = record world {
  server = record {
    config = config;
    has_tls = true;
    active_connections = (make_cancel_key 5 9, 1) ∷ [];
  };
}

handle_cancel_tests :
    ((handle_cancel env pool_key registered).0 ≡ err cancel_done)
    × ((handle_cancel env pool_key registered).1.cancels ≡ cancel_message pool_key ∷ [])
    × ((handle_cancel env auth_key registered).1.cancels ≡ [])
unfolding proxy
handle_cancel_tests = (refl, refl, refl)

handle_cancel_lem_example :
    ((handle_cancel env pool_key registered).0 ≢ ok tt)
    × (((handle_cancel env pool_key registered).1.cancels ≡ [])
        ⊎ ((c : ℕ) × (get_connection_for_cancel_request 5 9 registered.server ≡ some c)
            × ((handle_cancel env pool_key registered).1.cancels
                ≡ [] ++ cancel_message pool_key ∷ [])))
handle_cancel_lem_example = handle_cancel_lem env pool_key registered

read_words-cancel_message_example :
    (read_words (cancel_message pool_key) ≡ 16 ∷ 80877102 ∷ 5 ∷ 9 ∷ [])
    × (length (cancel_message pool_key) ≡ 16)
    × All (λ b. b < 256) (cancel_message pool_key)
read_words-cancel_message_example = read_words-cancel_message pool_key (omega arith) (omega arith)

-- The same session, at whose end every peer hangs up.
abbrev patient : Env (Unit {0})
patient = record env {
  script = arrives authentication_ok ∷ arrives (ready_for_query b'I') ∷ lost ∷ [];
  acquiring = record {
    making = record { others = λ m. m; parses = true; made = some 7 };
    acquired = λ pool n.
        Extern.returns (record pool_conn { inbox = arrives (ready_for_query b'I') ∷ lost ∷ [] });
    ping = λ c. Extern.returns tt;
  };
}

abbrev polite : World
polite = record world {
  conn = record client {
    requests = arrives (startup ((codes "user", codes "ann") ∷ [])) ∷ lost ∷ [];
    inbox = arrives (password_message (codes "x")) ∷ arrives (query (codes "BEGIN")) ∷ lost ∷ [];
  };
}

-- Another client comes and goes, and a third brings the cancel request.
abbrev passing : List Call
passing = registers 6 6 2 ∷ unregisters 6 6 2 ∷ []

abbrev third : World
third = record world { server = calls (λ c. true) passing started.server }

handle_cancel-reaches_example :
    ((before : List Packet) × (started.conn.client.sent
        ≡ before ++ message (backend_key_data pool_key) ∷ message (ready_for_query b'I') ∷ []))
    × (handle_cancel env pool_key third
        ≡ (err cancel_done, record third { cancels = [] ++ cancel_message pool_key ∷ [] }))
unfolding proxy
handle_cancel-reaches_example =
    handle_cancel-reaches env env world started third pool_conn (λ c. true) passing (tt, (tt, tt))
      handle_startup_message_test refl (omega arith) (omega arith)
      ((omega arith, omega arith, refl), ((omega arith, omega arith, refl), tt)) refl refl refl

handle_connection-Conforms_example : Conforms (handle_connection env world).1.conn.client
handle_connection-Conforms_example = handle_connection-Conforms env world refl refl

-- What holds of a connection that was handed out.
abbrev Handed : Extern PoolConn → Type 0
Handed (Extern.returns p) = IsResponsive p
Handed _ = Unit

patient-Responsive : Responsive patient
patient-Responsive pool n =
    (λ e. ground arith, λ p e. (subst Handed e (tt, λ sql g. ground arith), λ g. ground arith))

handle_connection-ends_example :
    ((handle_connection patient polite).0 ≢ blocks) × Tidy 0 (handle_connection patient polite).1
handle_connection-ends_example =
    handle_connection-ends patient polite refl tt tt tt patient-Responsive

-- `gprxy connect` against this proxy.
abbrev creds : SavedCreds
creds = record {
  access_token = codes "secret";
  refresh_token = [];
  id_token = [];
  expires_at = pos 9;
  issued_at = pos 0;
  user_info = record { sub = []; email = codes "ann"; name = []; roles = [] };
}

abbrev target : ConnectionConfig
target = record { db_name = codes "app"; db_host = codes "db"; db_port = pos 7777 }

abbrev connecting : World
connecting = record world {
  conn = record client { requests = connect_requests target creds; inbox = connect_inbox creds };
}

abbrev greeted : World
greeted = (handle_startup_message env connecting).1

abbrev line : Line
line = record { wire = open_sink; responses = arrives b'S' ∷ []; handshakes = true }

abbrev answered_ssl : World
answered_ssl = (answer_ssl env true 0 world).1

answer_ssl_test : answer_ssl env true 0 world ≡ (ok tt, answered_ssl)
unfolding proxy
answer_ssl_test = refl

upgrade_to_tls-answer_ssl_example :
    (answered_ssl.conn.client.sent ≡ [] ++ byte (answer_of true) ∷ [])
    × (answered_ssl.conn.secure ≡ (true || false))
    × (read_words ssl_request_bytes ≡ 8 ∷ 80877103 ∷ [])
    × ((upgrade_to_tls (codes "proxy") line).0
        ≡ (if true then with_handshake (codes "proxy") true else ok plain))
unfolding send
upgrade_to_tls-answer_ssl_example =
    upgrade_to_tls-answer_ssl env true 0 world answered_ssl (codes "proxy") line [] answer_ssl_test
      refl refl
