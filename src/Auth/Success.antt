-- ===== src/Auth/Success.antt =====
-- internal/auth/authenticator.go: what it takes for `AuthenticateUser` to return a key.
use mathlib.Core.Path.{subst}
use gprxy.Common.{
  continue-ok, ℕ, ◌≡◌, refl, sym, ap, ◌∙◌, Bool, true, false, Option, none, some, List, ◌∷◌, ◌++◌,
  arith, Text, codes, Text_eq, Map, insert, ℤ, All, Event, arrives, Sink, send, Outcome, ok, err,
  panics, blocks,
}
use gprxy.Protocol.{
  BackendKeyData, BackendMessage, FrontendMessage, startup_message, ready_for_query,
}
use gprxy.Roles.{RoleMapper}
use gprxy.Jwt.Keys.{Round}
use gprxy.Jwt.{Parser}
use gprxy.Auth.Backend.{Scram, Session, auth_loop}
use gprxy.Auth.Forwarding.{last_key, IsStep}
use gprxy.Auth.Handshake.{arrive, auth_loop-IsHandshake}
use gprxy.Auth.Credentials.{
  or_refuse-Keeps, request_password-Keeps, resolve-Keeps, IsLogin, resolve-IsLogin,
}
use gprxy.Auth.Admission.{SpeaksAs-Keeps, Sends, request_password-Sends}
use gprxy.Auth.Speaking.{SpeaksAs, start_backend-ok, begin, start_backend-validator}
use gprxy.Auth.{
  Attempt, refuse, request_password, or_refuse, Login, resolve, started, key_or_panic, closed,
  with_backend, start_backend, authenticate_user,
}

refuse-fails : {A : Type 0} (msg : Text) (s t : Attempt) (a : A) → refuse msg s ≡ (ok a, t) → ⊥
unfolding refuse
refuse-fails msg s t a h = ground arith

-- The dialogue ended with ReadyForQuery and no error, and `key` was the last that was sent.
pub record IsAccepted (script : List (Event BackendMessage)) (key : BackendKeyData) : Type 0 where
  pub steps : List BackendMessage
  pub status : ℕ
  pub rest : List (Event BackendMessage)
  pub script_eq : script ≡ arrive steps ++ arrives (ready_for_query status) ∷ rest
  pub no_end : All IsStep steps
  pub key_eq : last_key none steps ≡ some key

module _ {Conv : Type 0} (scram : Scram Conv) (md5_hex : Text → Text) where
  closed-IsAccepted :
      (script : List (Event BackendMessage)) (login : Login) (s t : Attempt) (key : BackendKeyData)
      (q : Outcome (Unit {0}) × Session Conv)
      → auth_loop scram md5_hex login.username login.secret script (begin scram md5_hex login s) ≡ q
      → closed scram md5_hex s q ≡ (ok key, t)
      → IsAccepted script key
  closed-IsAccepted script login s t key (ok u, w) e h =
      let done =
        auth_loop-IsHandshake scram md5_hex login.username login.secret script
          (begin scram md5_hex login s) w e in
      record {
        steps = done.steps;
        status = done.status;
        rest = done.rest;
        script_eq = done.script_eq;
        no_end = done.no_end;
        key_eq = sym done.key ∙ found w.key_data (ap (λ x. x.0) h);
      }
    where
      found : (o : Option BackendKeyData) → key_or_panic o ≡ ok key → o ≡ some key
      found none p = absurd (ground arith)
      found (some k) p = ground arith
  closed-IsAccepted script login s t key (err x, w) e h = absurd (ground arith)
  closed-IsAccepted script login s t key (panics, w) e h = absurd (ground arith)
  closed-IsAccepted script login s t key (blocks, w) e h = absurd (ground arith)

  start_backend-IsAccepted :
      (script : List (Event BackendMessage)) (login : Login) (s t : Attempt) (key : BackendKeyData)
      → start_backend scram md5_hex script login s ≡ (ok key, t)
      → IsAccepted script key
  unfolding start_backend with_backend
  start_backend-IsAccepted script login s t key h =
      after (send (startup_message parameters) s.backend) h
    where
      parameters : Map Text Text
      parameters = insert (codes "user") login.username s.parameters

      s' : Attempt
      s' = record s { parameters = parameters }

      after :
          (r : Bool × Sink FrontendMessage)
          → started r (with_backend scram md5_hex script login) s' ≡ (ok key, t)
          → IsAccepted script key
      after (true, k) p =
          closed-IsAccepted script login (record s' { backend = k }) t key
            (auth_loop scram md5_hex login.username login.secret script
              (begin scram md5_hex login (record s' { backend = k })))
            refl p
      after (false, k) p =
          absurd (refuse-fails (codes "Authentication failed") (record s' { backend = k }) t key p)

  module _ (wide : ℕ → ℕ) (parser : Parser) (mapper : RoleMapper) (round : Round) (now : ℤ) where
    -- The password that the client sends next stands for a login, PostgreSQL was sent a startup
    -- message and answers to its challenges under this login, and accepted them.
    pub record IsAdmitted (script : List (Event BackendMessage)) (user : Text) (s t : Attempt)
        (key : BackendKeyData) : Type 0 where
      pub password : Text
      pub sends : Sends scram md5_hex wide parser mapper round now script user s password
      pub login : Login
      pub entitled : IsLogin wide parser mapper round now t.validator user password login
      pub spoken : SpeaksAs scram md5_hex script login s t
      pub accepted : IsAccepted script key

    -- If `AuthenticateUser` returns a key, PostgreSQL was reached, the client's next message is a
    -- password that stands for a login, that is the client's own user and this password, or the
    -- service account for the roles of an authentic token; PostgreSQL was sent a startup message
    -- with the user of this login and answers under its credentials to the challenges, and nothing
    -- else; and the dialogue ended with ReadyForQuery and no ErrorResponse before it. The key is
    -- the last that PostgreSQL sent.
    pub authenticate_user-IsAdmitted :
        (dialled : Bool) (script : List (Event BackendMessage)) (user : Text) (s t : Attempt)
        (key : BackendKeyData)
        → authenticate_user scram md5_hex wide parser mapper round now dialled script user s
          ≡ (ok key, t)
        → (dialled ≡ true) × IsAdmitted script user s t key
    unfolding authenticate_user
    authenticate_user-IsAdmitted false script user s t key h =
        absurd (refuse-fails (codes "Backend Unavailable") s t key h)
    authenticate_user-IsAdmitted true script user s t key h =
        let r = or_refuse (codes "Authentication failed") (request_password s) in
        let (password, asked, h₁) = continue-ok r.0 _ r.1 t key h in
        let q = resolve wide parser mapper round now user password r.1 in
        let (login, resolved, h₂) = continue-ok q.0 _ q.1 t key h₁ in
        let asked_kept = or_refuse-Keeps _ s (request_password s) (request_password-Keeps s) in
        let kept = resolve-Keeps wide parser mapper round now user password r.1 in
        let validator : t.validator ≡ q.1.validator =
          sym (ap (λ x. x.1.validator) h₂)
          ∙ start_backend-validator scram md5_hex script login q.1 in
        (
          refl,
          record {
            password = password;
            sends =
                request_password-Sends scram md5_hex wide parser mapper round now script user s
                  password asked;
            login = login;
            entitled =
                subst (λ v. IsLogin wide parser mapper round now v user password login)
                  (sym validator)
                  (resolve-IsLogin wide parser mapper round now user password r.1 q.1 login
                    (ap (λ x. (x, q.1)) resolved));
            spoken =
                SpeaksAs-Keeps scram md5_hex wide parser mapper round now script user s login q.1 t
                  (kept.0 ∙ asked_kept.0, kept.1 ∙ asked_kept.1)
                  (start_backend-ok scram md5_hex script login q.1 t key h₂);
            accepted = start_backend-IsAccepted script login q.1 t key h₂;
          },
        )
