-- ===== src/Config.antt =====
-- internal/config/config.go. `env` is `os.Getenv` after the file .env was loaded: "" for a variable
-- that is not set. `none` is `log.Fatal`, which ends the program.
pub mod Strings
mod Tests
use gprxy.Common.{
  Bool, true, false, ◌||◌, Option, none, some, ◌++◌, Text, codes, is_empty, if◌then◌else◌,
}

pub record Config : Type 0 where
  pub proxy_host : Text
  pub proxy_port : Text
  pub db_host : Text
  pub service_user : Text
  pub service_pass : Text

abbrev pub or_text : Text → Text → Text
or_text s default = if is_empty s then default else s

unfoldable pub load : (Text → Text) → Option Config
load env =
    if is_empty (env (codes "GPRXY_USER"))
    then none
    else if is_empty (env (codes "GPRXY_PASS"))
    then none
    else some (record {
      proxy_host = or_text (env (codes "PROXY_HOST")) (codes "0.0.0.0");
      proxy_port = or_text (env (codes "PROXY_PORT")) (codes "7777");
      db_host = or_text (env (codes "DB_HOST")) (codes "localhost");
      service_user = env (codes "GPRXY_USER");
      service_pass = env (codes "GPRXY_PASS");
    })

unfoldable pub build_connection_string : Config → Text → Text
build_connection_string c database =
    codes "postgres://"
    ++ (c.service_user
        ++ (codes ":"
            ++ (c.service_pass ++ (codes "@" ++ (c.db_host ++ (codes ":5432/" ++ database))))))
