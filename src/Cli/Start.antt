-- ===== src/Cli/Start.antt =====
-- internal/cli/start.go, `InitializeAuth` of internal/auth/authenticator.go, and main.go. `env` is
-- `os.Getenv`, `environ` is `os.Environ`; the loop of `Start` is in Server/Shutdown.
pub mod Composition
mod Tests
use gprxy.Common.{
  ℕ, Bool, true, false, ◌||◌, Option, none, some, List, ◌++◌, Text, codes, is_empty, Outcome, ok,
  err, panics, blocks, Act, continue, Error, not_configured, listen_failed, if◌then◌else◌,
}
use gprxy.Roles.{RoleMapper, new_role_mapper}
use gprxy.Jwt.Keys.{Validator, new_validator}
use gprxy.Config.{Config, load}
use gprxy.Server.{Server, new_server}
use gprxy.Tls.{TlsConfig}
use gprxy.Tls.{load as load_tls}
use gprxy.Logger.{Logger, init_from_env}

-- The variables `jwtValidator` and `roleMapper`, nil at first.
pub record Globals : Type 0 where
  pub jwt_validator : Option Validator
  pub role_mapper : Option RoleMapper

abbrev pub mapped : Outcome RoleMapper → Act Globals (Unit {0})
mapped (ok rm) g = (ok tt, record g { role_mapper = some rm })
mapped (err e) g = (err e, record g { role_mapper = none })
mapped panics g = (panics, g)
mapped blocks g = (blocks, g)

-- The validator is set even if the roles cannot be loaded.
unfoldable pub initialize_auth :
    (ℕ → ℕ) → List Text → Text → Text → Text → Text → Act Globals (Unit {0})
unfolding new_validator new_role_mapper
initialize_auth wide environ default issuer audience jwks_url g =
    mapped (new_role_mapper wide environ default)
      (record g { jwt_validator = some (new_validator issuer audience jwks_url) })

abbrev pub is_some : Option TlsConfig → Bool
is_some none = false
is_some (some config) = true

abbrev pub listening : Bool → Server → Outcome Server
listening true s = ok s
listening false s = err listen_failed

-- A fatal exit of `config.Load` is `none`.
abbrev pub with_config : Bool → Option TlsConfig → Option Config → Outcome Server
with_config listens tls none = err not_configured
with_config listens tls (some cfg) = listening listens (new_server cfg (is_some tls))

abbrev pub with_tls : Bool → Option Config → Outcome (Option TlsConfig) → Outcome Server
with_tls listens cfg (ok tls) = with_config listens tls cfg
with_tls listens cfg (err e) = err e
with_tls listens cfg panics = panics
with_tls listens cfg blocks = blocks

-- The steps up to a server that accepts connections; an error ends the program. `listens` says
-- whether `net.Listen` works.
unfoldable pub start_proxy_server :
    (ℕ → ℕ) → (Text → Text) → List Text → (Text → Text → Option ℕ) → Bool → Act Globals Server
unfolding initialize_auth load load_tls new_server
start_proxy_server wide env environ key_pair listens g =
    let tenant = env (codes "AUTH0_TENANT") in
    let audience = env (codes "AUDIENCE") in
    let started =
      initialize_auth wide environ (env (codes "DEFAULT_ROLE"))
        (codes "https://" ++ (tenant ++ codes "/")) audience
        (codes "https://" ++ (tenant ++ codes "/.well-known/jwks.json")) g in
    if is_empty tenant || is_empty audience
    then (err not_configured, g)
    else continue started.0 (λ _ g₁. (with_tls listens (load env) (load_tls env key_pair), g₁))
        started.1

-- What `main` sets up before it runs a command: the version of the command line, and the logger.
pub record Setup : Type 0 where
  pub version : Text
  pub root_version : Text
  pub logger : Logger

unfoldable pub set_version : Text → Setup → Setup
set_version v s = record s { version = v; root_version = v }

unfoldable pub main_setup : (Text → List Text → Text) → Text → Bool → Text → Setup → Setup
unfolding set_version init_from_env
main_setup sprintf version loaded log_level s =
    let s' : Setup = set_version version s in
    record s' { logger = init_from_env sprintf loaded log_level s'.logger }
