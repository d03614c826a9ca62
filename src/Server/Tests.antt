-- ===== src/Server/Tests.antt =====
-- A registry of two connections, and a shutdown during a session.
use gprxy.Common.{
  ℕ, ◌<◌, ◌^◌, ◌≡◌, refl, Bool, true, false, ◌&&◌, none, some, [], ◌∷◌, arith, lookup, insert,
  remove, nat_eq, if◌then◌else◌, ok, panics, codes,
}
use gprxy.Config.{Config}
use gprxy.Server.{
  Server, new_server, make_cancel_key, register_connection, unregister_connection,
  get_connection_for_cancel_request,
}
use gprxy.Server.Keys.{make_cancel_key-inj}
use gprxy.Server.Registry.{get_connection_lem, register_connection-panics}
use gprxy.Server.Shutdown.{Start, Reach, begin, returned, returned_early}

server : Unit {0}
unfolding register_connection unregister_connection get_connection_for_cancel_request
    make_cancel_key new_server lookup insert remove
server = tt

abbrev config : Config
config = record {
  proxy_host = codes "0.0.0.0";
  proxy_port = codes "7777";
  db_host = codes "db";
  service_user = codes "svc";
  service_pass = codes "pw";
}

abbrev one : Server
one = record {
  config = config;
  has_tls = false;
  active_connections = (make_cancel_key 5 9, 1) ∷ [];
}

abbrev alive : ℕ → Bool
alive c = true

abbrev none_alive : ℕ → Bool
none_alive c = false

register_connection_tests :
    (register_connection alive 5 9 1 (new_server config false) ≡ (ok tt, one))
    × (get_connection_for_cancel_request 5 9 one ≡ some 1)
    × (get_connection_for_cancel_request 9 5 one ≡ none)
    × (make_cancel_key 1 2 ≡ 4294967298)
unfolding server
register_connection_tests = (refl, refl, refl, refl)

abbrev process : ℕ
process = 5

abbrev secret : ℕ
secret = 9

make_cancel_key-inj_example :
    (process ≡ process) × (secret ≡ secret) × (make_cancel_key 5 9 < 2 ^ 64)
make_cancel_key-inj_example =
    make_cancel_key-inj 5 9 5 9 (omega arith) (omega arith) (omega arith) (omega arith) refl

get_connection_lem_example :
    (get_connection_for_cancel_request 5 9 (register_connection alive 6 9 2 one).1
      ≡ (if nat_eq 6 5 && nat_eq 9 9 then some 2 else get_connection_for_cancel_request 5 9 one))
    × (get_connection_for_cancel_request 5 9 (unregister_connection 6 9 2 one)
        ≡ (if nat_eq 6 5 && nat_eq 9 9 then none else get_connection_for_cancel_request 5 9 one))
get_connection_lem_example =
    get_connection_lem alive 6 9 5 9 2 one (omega arith) (omega arith) (omega arith) (omega arith)

register_connection-panics_example : (register_connection none_alive 6 9 2 one).0 ≡ panics
register_connection-panics_example =
    register_connection-panics none_alive 6 9 5 9 2 1 one (omega arith) (omega arith) (omega arith)
      (omega arith) register_connection_tests.1 refl refl

returned_early_example : (s : Start) × Reach begin s × (s.phase ≡ returned) × (s.handling ≡ 3)
returned_early_example = returned_early 3
