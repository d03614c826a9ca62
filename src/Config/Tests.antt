-- ===== src/Config/Tests.antt =====
-- A connection string, and what the theorem reads from one.
use gprxy.Common.{◌≡◌, refl, codes, arith, none}
use gprxy.Config.{Config, load, build_connection_string}
use gprxy.Config.Strings.{IsPlain}

abbrev local : Config
local = record {
  proxy_host = codes "0.0.0.0";
  proxy_port = codes "7777";
  db_host = codes "db";
  service_user = codes "svc";
  service_pass = codes "p:w";
}

build_connection_string_test :
    build_connection_string local (codes "app") ≡ codes "postgres://svc:p:w@db:5432/app"
unfolding build_connection_string
build_connection_string_test = refl

load_test : load (λ name. codes "") ≡ none
unfolding load
load_test = refl

local-IsPlain : IsPlain local
local-IsPlain = record { user = ground arith; pass = ground arith; host = ground arith }
