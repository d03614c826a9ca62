-- ===== src/Auth.antt =====
-- internal/auth/authenticator.go and errors.go. The SCRAM library and the MD5 digest are
-- parameters; what a peer sends is a list of events, and what it is sent a sink.
pub mod Backend
pub mod Forwarding
pub mod Handshake
pub mod Answers
pub mod Replies
pub mod Credentials
pub mod Speaking
pub mod Admission
pub mod Success
pub mod Dialogue
pub mod Ending
pub mod DialogueView
pub mod Showing
mod Tests
use gprxy.Common.{
  ℕ, Bool, true, false, ◌&&◌, Option, none, some, List, [], ◌∷◌, Text, Text_eq, codes, has_prefix,
  count_char, nat_eq, Map, lookup, insert, if◌then◌else◌, ℤ, Event, arrives, lost, Sink, send,
  open_sink, Outcome, ok, err, panics, blocks, Act, ◌>>=◌, ◌>>◌, Error, told_client, not_a_password,
  receive_failed, send_failed,
}
use gprxy.Protocol.{
  BackendKeyData, FrontendMessage, startup_message, password_message, BackendMessage,
  authentication_cleartext_password, BackendMessage, Packet, message, fatal,
}
use gprxy.Roles.{ServiceAccount, RoleMapper, map_role}
use gprxy.Jwt.Keys.{Validator, Round}
use gprxy.Jwt.{OAuthContext, Parser, validate_jwt}
use Backend.{Scram, Session, auth_loop}

-- The state of one `AuthenticateUser`: both directions of the client, what is sent to PostgreSQL,
-- the parameters of the startup message, and the validator, which all connections share.
pub record Attempt : Type 0 where
  pub inbox : List (Event FrontendMessage)
  pub client : Sink Packet
  pub backend : Sink FrontendMessage
  pub parameters : Map Text Text
  pub validator : Validator

abbrev pub told : Text → Bool → Error
told msg true = told_client msg
told msg false = send_failed

-- `sendErrorToClient`
unfoldable pub send_error_to_client {ℓ} :
    {A : Type ℓ} → Text → Sink Packet → Outcome A × Sink Packet
unfolding send
send_error_to_client msg k =
    let (sent, k') = send (message (fatal msg)) k in (err (told msg sent), k')

-- Ends the attempt with an error that the client is told.
unfoldable pub refuse : {A : Type 0} → Text → Act Attempt A
unfolding send_error_to_client
refuse msg s = let (r, k) = send_error_to_client msg s.client in (r, record s { client = k })

abbrev pub password_of : FrontendMessage → Outcome Text
password_of (password_message p) = ok p
password_of _ = err not_a_password

abbrev pub take_password : List (Event FrontendMessage) → Act Attempt Text
take_password [] s = (blocks, s)
take_password (lost ∷ rest) s = (err receive_failed, record s { inbox = rest })
take_password (arrives m ∷ rest) s = (password_of m, record s { inbox = rest })

abbrev pub asked : Bool × Sink Packet → Act Attempt Text
asked (true, k) s = take_password s.inbox (record s { client = k })
asked (false, k) s = (err send_failed, record s { client = k })

-- `requestPasswordFromClient`
unfoldable pub request_password : Act Attempt Text
unfolding send
request_password s = asked (send (message authentication_cleartext_password) s.client) s

-- The handler of an error: every error of the step becomes a refusal.
abbrev pub or_refuse : {A : Type 0} → Text → Outcome A × Attempt → Outcome A × Attempt
or_refuse msg (err e, s) = refuse msg s
or_refuse msg (r, s) = (r, s)

-- `strings.HasPrefix(password, "eyJ") && strings.Count(password, ".") == 2`
unfoldable pub is_jwt : Text → Bool
is_jwt password = has_prefix password (codes "eyJ") && nat_eq (count_char password b'.') 2

pub record Login : Type 0 where
  pub username : Text
  pub secret : Text

module _ (wide : ℕ → ℕ) (parser : Parser) (mapper : RoleMapper) (round : Round) (now : ℤ) where
  abbrev pub of_account : Outcome ServiceAccount → Act Attempt Login
  of_account (ok a) s = (ok (record { username = a.username; secret = a.password }), s)
  of_account (err e) s = refuse (codes "Access denied: no valid roles") s
  of_account panics s = (panics, s)
  of_account blocks s = (blocks, s)

  abbrev pub of_context : Outcome OAuthContext × Validator → Act Attempt Login
  of_context (ok c, v) s = of_account (map_role wide mapper c.roles) (record s { validator = v })
  of_context (err e, v) s =
      refuse (codes "Invalid authentication token") (record s { validator = v })
  of_context (panics, v) s = (panics, record s { validator = v })
  of_context (blocks, v) s = (blocks, record s { validator = v })

  -- The credentials for PostgreSQL: those of the service account for a token, else the client's own.
  unfoldable pub resolve : Text → Text → Act Attempt Login
  resolve user password s =
      if is_jwt password
      then of_context (validate_jwt parser round now password s.validator) s
      else (ok (record { username = user; secret = password }), s)

abbrev pub started : {A : Type 0} → Bool × Sink FrontendMessage → Act Attempt A → Act Attempt A
started (true, k) next s = next (record s { backend = k })
started (false, k) next s = refuse (codes "Authentication failed") (record s { backend = k })

abbrev pub key_or_panic : Option BackendKeyData → Outcome BackendKeyData
key_or_panic none = panics
key_or_panic (some k) = ok k

module _ {Conv : Type 0} (scram : Scram Conv) (md5_hex : Text → Text) where
  abbrev pub closed : Attempt → Outcome (Unit {0}) × Session Conv → Outcome BackendKeyData × Attempt
  closed s (ok _, t) =
      (key_or_panic t.key_data, record s { client = t.client; backend = t.backend })
  closed s (err e, t) = (err e, record s { client = t.client; backend = t.backend })
  closed s (panics, t) = (panics, record s { client = t.client; backend = t.backend })
  closed s (blocks, t) = (blocks, record s { client = t.client; backend = t.backend })

  -- The dialogue with PostgreSQL, whose messages are `script`.
  unfoldable pub with_backend : List (Event BackendMessage) → Login → Act Attempt BackendKeyData
  unfolding auth_loop
  with_backend script login s = closed s (
      auth_loop scram md5_hex login.username login.secret script
        (record { client = s.client; backend = s.backend; conversation = none; key_data = none }))

  -- The startup message goes out under the resolved user.
  unfoldable pub start_backend : List (Event BackendMessage) → Login → Act Attempt BackendKeyData
  unfolding with_backend send
  start_backend script login s =
      let parameters : Map Text Text = insert (codes "user") login.username s.parameters in
      started (send (startup_message parameters) s.backend) (with_backend script login)
        (record s { parameters = parameters })

  module _ (wide : ℕ → ℕ) (parser : Parser) (mapper : RoleMapper) (round : Round) (now : ℤ) where
    -- `AuthenticateUser`. `dialled` says whether PostgreSQL could be reached.
    unfoldable pub authenticate_user :
        Bool → List (Event BackendMessage) → Text → Act Attempt BackendKeyData
    unfolding request_password resolve start_backend
    authenticate_user false script user = refuse (codes "Backend Unavailable")
    authenticate_user true script user = do
      password ← λ t. or_refuse (codes "Authentication failed") (request_password t)
      login ← resolve wide parser mapper round now user password
      start_backend script login
