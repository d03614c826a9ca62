-- ===== src/Auth/Ending.antt =====
-- internal/auth/authenticator.go: `AuthenticateUser` comes to an end when neither peer falls silent.
use gprxy.Auth.Dialogue.{auth_loop-Halts}
use gprxy.Common.{
  ℕ, Bool, true, false, Bool-cases, inl, inr, Option, none, some, List, [], ◌∷◌, Text, Text_eq,
  codes, ℤ, insert, Event, arrives, lost, Sink, send, Closes, Outcome, ok, err, panics, blocks,
  Ends, continue-Ends,
}
use gprxy.Protocol.{
  BackendKeyData, BackendMessage, authentication_cleartext_password, FrontendMessage,
  startup_message, password_message, Packet, message,
}
use gprxy.Roles.{ServiceAccount, RoleMapper, map_role}
use gprxy.Jwt.Keys.{Validator, Round}
use gprxy.Jwt.{OAuthContext, Parser, validate_jwt}
use gprxy.Jwt.Ending.{Halts, map_role-Halts, validate_jwt-Halts}
use gprxy.Auth.Backend.{Scram, Session, auth_loop}
use gprxy.Auth.{
  Attempt, send_error_to_client, refuse, password_of, take_password, asked, request_password,
  or_refuse, is_jwt, Login, of_account, of_context, resolve, started, key_or_panic, closed,
  with_backend, start_backend, authenticate_user,
}

-- What the attempt leaves of the client's messages still ends with a lost connection.
abbrev pub Closing : {A : Type 0} → Outcome A × Attempt → Type 0
Closing = Ends (λ _ t. Closes t.inbox)

refuse-Closing : (A : Type 0) (msg : Text) (s : Attempt) → Closing {A = A} (refuse msg s)
unfolding refuse send_error_to_client
refuse-Closing A msg s = tt

password_of-Closing :
    (m : FrontendMessage) (s : Attempt) → Closes s.inbox → Closing (password_of m, s)
password_of-Closing (password_message p) s c = c
password_of-Closing _ s c = tt

take_password-Closing :
    (inbox : List (Event FrontendMessage)) (s : Attempt)
    → Closes inbox
    → Closing (take_password inbox s)
take_password-Closing [] s c = c
take_password-Closing (lost ∷ rest) s c = tt
take_password-Closing (arrives m ∷ rest) s c = password_of-Closing m (record s { inbox = rest }) c

asked-Closing : (k : Bool × Sink Packet) (s : Attempt) → Closes s.inbox → Closing (asked k s)
asked-Closing (true, k) s c = take_password-Closing s.inbox (record s { client = k }) c
asked-Closing (false, k) s c = tt

or_refuse-Closing :
    {A : Type 0} (msg : Text) (r : Outcome A × Attempt) → Closing r → Closing (or_refuse msg r)
or_refuse-Closing msg (ok a, s) h = h
or_refuse-Closing msg (err e, s) h = refuse-Closing _ msg s
or_refuse-Closing msg (panics, s) h = tt
or_refuse-Closing msg (blocks, s) h = h

module _ (wide : ℕ → ℕ) (parser : Parser) (mapper : RoleMapper) (round : Round) (now : ℤ) where
  of_account-Closing :
      (r : Outcome ServiceAccount) (s : Attempt)
      → Closes s.inbox
      → Halts (r, s)
      → Closing (of_account wide parser mapper round now r s)
  of_account-Closing (ok a) s c h = c
  of_account-Closing (err e) s c h = refuse-Closing _ _ s
  of_account-Closing panics s c h = tt
  of_account-Closing blocks s c h = h

  of_context-Closing :
      (r : Outcome OAuthContext × Validator) (s : Attempt)
      → Closes s.inbox
      → Halts r
      → Closing (of_context wide parser mapper round now r s)
  of_context-Closing (ok o, v) s c h =
      of_account-Closing (map_role wide mapper o.roles) (record s { validator = v }) c
        (map_role-Halts wide mapper o.roles (record s { validator = v }))
  of_context-Closing (err e, v) s c h = refuse-Closing _ _ (record s { validator = v })
  of_context-Closing (panics, v) s c h = tt
  of_context-Closing (blocks, v) s c h = h

  resolve-Closing :
      (user password : Text) (s : Attempt)
      → Closes s.inbox
      → Closing (resolve wide parser mapper round now user password s)
  unfolding resolve
  resolve-Closing user password s c = elim (Bool-cases (is_jwt password)) [
    | inl e ↦ rw e (
        of_context-Closing (validate_jwt parser round now password s.validator) s c
          (validate_jwt-Halts parser round now password s.validator))
    | inr e ↦ rw e c
  ]

module _ {Conv : Type 0} (scram : Scram Conv) (md5_hex : Text → Text) where
  closed-Closing :
      (s : Attempt) (r : Outcome (Unit {0}) × Session Conv)
      → Closes s.inbox
      → Halts r
      → Closing (closed scram md5_hex s r)
  closed-Closing s (ok _, t) c h = keyed t.key_data
    where
      keyed :
          (o : Option BackendKeyData)
          → Closing (key_or_panic o, record s { client = t.client; backend = t.backend })
      keyed none = tt
      keyed (some k) = c
  closed-Closing s (err e, t) c h = tt
  closed-Closing s (panics, t) c h = tt
  closed-Closing s (blocks, t) c h = h

  started-Closing :
      (script : List (Event BackendMessage)) (login : Login) (k : Bool × Sink FrontendMessage)
      (s : Attempt)
      → Closes s.inbox
      → Closes script
      → Closing (started k (with_backend scram md5_hex script login) s)
  unfolding with_backend
  started-Closing script login (true, k) s c d =
      closed-Closing (record s { backend = k })
        (auth_loop scram md5_hex login.username login.secret script
          (record { client = s.client; backend = k; conversation = none; key_data = none }))
        c (auth_loop-Halts scram md5_hex login.username login.secret script _ d)
  started-Closing script login (false, k) s c d = refuse-Closing _ _ (record s { backend = k })

  module _ (wide : ℕ → ℕ) (parser : Parser) (mapper : RoleMapper) (round : Round) (now : ℤ) where
    pub authenticate_user-Closing :
        (dialled : Bool) (script : List (Event BackendMessage)) (user : Text) (s : Attempt)
        → Closes s.inbox
        → Closes script
        → Closing
            (authenticate_user scram md5_hex wide parser mapper round now dialled script user s)
    unfolding authenticate_user request_password start_backend
    authenticate_user-Closing false script user s c d = refuse-Closing _ _ s
    authenticate_user-Closing true script user s c d =
        let password = or_refuse (codes "Authentication failed") (request_password s) in
        let login : Text → Attempt → Outcome Login × Attempt =
          λ p t. resolve wide parser mapper round now user p t in
        continue-Ends (λ _ t. Closes t.inbox) (λ _ t. Closes t.inbox) password.0 _ password.1
          (or_refuse-Closing _ (request_password s)
            (asked-Closing (send (message authentication_cleartext_password) s.client) s c))
          (λ p c'.
            continue-Ends (λ _ t. Closes t.inbox) (λ _ t. Closes t.inbox) (login p password.1).0 _
              (login p password.1).1
              (resolve-Closing wide parser mapper round now user p password.1 c')
              (λ l c''.
                let t = (login p password.1).1 in
                started-Closing script l
                  (send (startup_message (insert (codes "user") l.username t.parameters)) t.backend)
                  (record t { parameters = insert (codes "user") l.username t.parameters }) c'' d))
