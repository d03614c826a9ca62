-- ===== src/Cli/Start/Composition.antt =====
-- What a proxy that has started was set up with, and which tokens it accepts.
use mathlib.Core.Path.{subst}
use gprxy.Common.{
  ℕ, ◌≡◌, refl, sym, ap, ◌∙◌, Bool, true, false, ◌||◌, Bool-cases, inl, inr, Option, none, some,
  List, ◌++◌, arith, Text, Text_eq, codes, lookup, is_empty, ℤ, Outcome, ok, err, panics, blocks,
  continue-ok, not_configured,
}
use gprxy.Roles.{RoleMapper, new_role_mapper}
use gprxy.Jwt.Values.{Claims, str}
use gprxy.Jwt.Keys.{Validator, new_validator}
use gprxy.Jwt.{OAuthContext, validate_claims}
use gprxy.Jwt.Acceptance.{InClaim, validate_claims-eq-ok_iff}
use gprxy.Config.{Config, load}
use gprxy.Server.{Server, new_server}
use gprxy.Tls.{TlsConfig}
use gprxy.Tls.{load as load_tls}
use gprxy.Cli.Start.{
  Globals, mapped, initialize_auth, is_some, with_config, with_tls, start_proxy_server,
}

module _ (wide : ℕ → ℕ) (env : Text → Text) (environ : List Text)
    (key_pair : Text → Text → Option ℕ) (listens : Bool) where
  abbrev pub issuer : Text
  issuer = codes "https://" ++ (env (codes "AUTH0_TENANT") ++ codes "/")

  abbrev pub jwks_url : Text
  jwks_url = codes "https://" ++ (env (codes "AUTH0_TENANT") ++ codes "/.well-known/jwks.json")

  pub record IsSetUp (g : Globals) (s : Server) : Type 0 where
    pub validator_eq :
        g.jwt_validator ≡ some (new_validator issuer (env (codes "AUDIENCE")) jwks_url)
    pub mapper : RoleMapper
    pub made : new_role_mapper wide environ (env (codes "DEFAULT_ROLE")) ≡ ok mapper
    pub mapper_eq : g.role_mapper ≡ some mapper
    pub tls : Option TlsConfig
    pub tls_eq : load_tls env key_pair ≡ ok tls
    pub config : Config
    pub config_eq : load env ≡ some config
    pub server_eq : s ≡ new_server config (is_some tls)
    pub bound : listens ≡ true

  mapped-ok :
      (r : Outcome RoleMapper) (g g' : Globals)
      → mapped r g ≡ (ok tt, g')
      → (rm : RoleMapper) × (r ≡ ok rm)
        × (g'.role_mapper ≡ some rm)
        × (g'.jwt_validator ≡ g.jwt_validator)
  mapped-ok (ok rm) g g' h = (rm, refl, ground arith, ground arith)
  mapped-ok (err e) g g' h = absurd (ground arith)
  mapped-ok panics g g' h = absurd (ground arith)
  mapped-ok blocks g g' h = absurd (ground arith)

  with_config-ok :
      (tls : Option TlsConfig) (o : Option Config) (s : Server)
      → with_config listens tls o ≡ ok s
      → (config : Config) × (o ≡ some config)
        × (s ≡ new_server config (is_some tls))
        × (listens ≡ true)
  with_config-ok tls none s h = absurd (ground arith)
  with_config-ok tls (some config) s h = (config, refl, ground arith, ground arith)

  with_tls-ok :
      (o : Option Config) (r : Outcome (Option TlsConfig)) (s : Server)
      → with_tls listens o r ≡ ok s
      → (tls : Option TlsConfig) × (r ≡ ok tls) × (with_config listens tls o ≡ ok s)
  with_tls-ok o (ok tls) s h = (tls, refl, h)
  with_tls-ok o (err e) s h = absurd (ground arith)
  with_tls-ok o panics s h = absurd (ground arith)
  with_tls-ok o blocks s h = absurd (ground arith)

  started-IsSetUp :
      (g g' : Globals) (s : Server)
      → (is_empty (env (codes "AUTH0_TENANT")) || is_empty (env (codes "AUDIENCE"))) ≡ false
      → start_proxy_server wide env environ key_pair listens g ≡ (ok s, g')
      → IsSetUp g' s
  unfolding start_proxy_server initialize_auth
  started-IsSetUp g g' s e h =
      let g₀ : Globals = record g {
        jwt_validator = some (new_validator issuer (env (codes "AUDIENCE")) jwks_url);
      } in
      let r = mapped (new_role_mapper wide environ (env (codes "DEFAULT_ROLE"))) g₀ in
      let (_, a, h₁) = continue-ok r.0 _ r.1 g' s (rw e at h) in
      let (rm, made, mapper, validator) =
        mapped-ok (new_role_mapper wide environ (env (codes "DEFAULT_ROLE"))) g₀ r.1
          (ap (λ x. (x, r.1)) a) in
      let same : r.1 ≡ g' = ap (λ x. x.1) h₁ in
      let (tls, tls_eq, h₂) = with_tls-ok (load env) (load_tls env key_pair) s (ap (λ x. x.0) h₁) in
      let (config, config_eq, server, bound) = with_config-ok tls (load env) s h₂ in
      record {
        validator_eq = sym (ap (λ x. x.jwt_validator) same) ∙ validator;
        mapper = rm;
        made = made;
        mapper_eq = sym (ap (λ x. x.role_mapper) same) ∙ mapper;
        tls = tls;
        tls_eq = tls_eq;
        config = config;
        config_eq = config_eq;
        server_eq = server;
        bound = bound;
      }

  -- `gprxy start` comes to a server only if every part of the setup succeeded: tenant and audience,
  -- the role mapper, TLS, the configuration and the listener; the server is new, and has TLS
  -- exactly if a certificate is configured.
  pub start_proxy_server-IsSetUp :
      (g g' : Globals) (s : Server)
      → start_proxy_server wide env environ key_pair listens g ≡ (ok s, g')
      → IsSetUp g' s
  start_proxy_server-IsSetUp g g' s h =
      elim (Bool-cases
        (is_empty (env (codes "AUTH0_TENANT")) || is_empty (env (codes "AUDIENCE")))) [
          | inl e ↦ absurd (refused e (unfold start_proxy_server in rw e at h))
          | inr e ↦ started-IsSetUp g g' s e h
        ]
    where
      refused :
          (is_empty (env (codes "AUTH0_TENANT")) || is_empty (env (codes "AUDIENCE"))) ≡ true
          → ◌≡◌ {A = Outcome Server × Globals} (err not_configured, g) (ok s, g')
          → ⊥
      refused e p = ground arith

  -- The claims that the validator of a started proxy accepts name the tenant as their issuer, by
  -- "https://<tenant>/", and the configured audience.
  pub validate_claims-issued :
      (g g' : Globals) (s : Server) (v : Validator) (claims : Claims) (now : ℤ)
      (context : OAuthContext)
      → start_proxy_server wide env environ key_pair listens g ≡ (ok s, g')
      → g'.jwt_validator ≡ some v
      → validate_claims v claims now ≡ ok context
      → (lookup (codes "iss") claims ≡ some (str issuer))
        × InClaim (env (codes "AUDIENCE")) (lookup (codes "aud") claims)
  unfolding new_validator
  validate_claims-issued g g' s v claims now context h e a =
      let setup = start_proxy_server-IsSetUp g g' s h in
      let same : new_validator issuer (env (codes "AUDIENCE")) jwks_url ≡ v =
        some_path (sym setup.validator_eq ∙ e) in
      let (accepted, _) = (validate_claims-eq-ok_iff v claims now context).0 a in
      (
        accepted.issued ∙ ap (λ x. some (str x.issuer)) (sym same),
        subst (λ x. InClaim x (lookup (codes "aud") claims)) (ap (λ x. x.audience) (sym same))
            accepted.addressed,
      )
    where
      some_path : {x y : Validator} → ◌≡◌ {A = Option Validator} (some x) (some y) → x ≡ y
      some_path p = ground arith
