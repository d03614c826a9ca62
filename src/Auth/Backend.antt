-- ===== src/Auth/Backend.antt =====
-- internal/auth/authenticator.go: `authenticateWithBackend`, the dialogue with PostgreSQL.
use gprxy.Common.{
  Bool, true, false, Option, none, some, List, [], ◌∷◌, ◌++◌, any, Text, Text_eq, ◌==◌, codes,
  if◌then◌else◌, Event, arrives, lost, Sink, send, Outcome, ok, err, panics, blocks, Act, Error,
  receive_failed, send_failed, backend_rejected, no_scram, scram_client_failed, scram_step_failed,
  no_conversation,
}
use gprxy.Protocol.{
  BackendKeyData, FrontendMessage, password_message, sasl_initial_response, sasl_response,
  BackendMessage, error_response, authentication_ok, authentication_cleartext_password,
  authentication_md5_password, authentication_sasl, authentication_sasl_continue,
  authentication_sasl_final, parameter_status, backend_key_data, ready_for_query, Packet, message,
}

-- github.com/xdg-go/scram: `new_client` is `SHA256.NewClient` with `NewConversation`, and `step` is
-- `Step`, with the conversation that it leaves. `none` is an error.
pub record Scram (Conv : Type 0) : Type 0 where
  pub new_client : Text → Text → Option Conv
  pub step : Conv → Text → Option (Text × Conv)

pub record Session (Conv : Type 0) : Type 0 where
  pub client : Sink Packet
  pub backend : Sink FrontendMessage
  pub conversation : Option Conv
  pub key_data : Option BackendKeyData

-- Whether the loop goes on.
pub data Verdict : Type 0 where
  proceed finished : Verdict

module _ {Conv : Type 0} where
  abbrev pub sent_to_client :
      Outcome Verdict → Error → Bool × Sink Packet → Act (Session Conv) Verdict
  sent_to_client r e (true, k) s = (r, record s { client = k })
  sent_to_client r e (false, k) s = (err e, record s { client = k })

  -- Sends to the client, and ends with `r`, or with the error `e` if that failed.
  unfoldable pub tell : BackendMessage → Outcome Verdict → Error → Act (Session Conv) Verdict
  tell m r e s = sent_to_client r e (send (message m) s.client) s

  abbrev pub sent_to_backend : Bool × Sink FrontendMessage → Act (Session Conv) Verdict
  sent_to_backend (true, k) s = (ok proceed, record s { backend = k })
  sent_to_backend (false, k) s = (err send_failed, record s { backend = k })

  unfoldable pub reply : FrontendMessage → Act (Session Conv) Verdict
  reply m s = sent_to_backend (send m s.backend) s

module _ {Conv : Type 0} (scram : Scram Conv) (md5_hex : Text → Text)
    (username password : Text) where
  -- md5(md5(password + username) + salt), in hexadecimal
  abbrev pub md5_password : Text → Text
  md5_password salt = codes "md5" ++ md5_hex (md5_hex (password ++ username) ++ salt)

  abbrev pub answer_first : Option (Text × Conv) → Act (Session Conv) Verdict
  answer_first none s = (err scram_step_failed, s)
  answer_first (some (response, conv)) s =
      reply (sasl_initial_response (codes "SCRAM-SHA-256") response)
        (record s { conversation = some conv })

  abbrev pub begin_scram : Option Conv → Act (Session Conv) Verdict
  begin_scram none s = (err scram_client_failed, s)
  begin_scram (some conv) s =
      answer_first (scram.step conv []) (record s { conversation = some conv })

  abbrev pub answer_next : Option (Text × Conv) → Act (Session Conv) Verdict
  answer_next none s = (err scram_step_failed, s)
  answer_next (some (response, conv)) s =
      reply (sasl_response response) (record s { conversation = some conv })

  abbrev pub continue_scram : Option Conv → Text → Act (Session Conv) Verdict
  continue_scram none payload s = (err no_conversation, s)
  continue_scram (some conv) payload s = answer_next (scram.step conv payload) s

  abbrev pub check_final : Option (Text × Conv) → Act (Session Conv) Verdict
  check_final none s = (err scram_step_failed, s)
  check_final (some (response, conv)) s = (ok proceed, record s { conversation = some conv })

  abbrev pub finish_scram : Option Conv → Text → Act (Session Conv) Verdict
  finish_scram none payload s = (err no_conversation, s)
  finish_scram (some conv) payload s = check_final (scram.step conv payload) s

  abbrev pub supports_scram : List Text → Bool
  supports_scram = any (λ mech. mech == codes "SCRAM-SHA-256")

  -- The body of the loop for one message.
  unfoldable pub auth_step : BackendMessage → Act (Session Conv) Verdict
  unfolding tell reply
  auth_step (error_response e) s =
      tell (error_response e) (err (backend_rejected e.message)) (backend_rejected e.message) s
  auth_step authentication_ok s = tell authentication_ok (ok proceed) send_failed s
  auth_step (ready_for_query tx) s = (ok finished, s)
  auth_step (parameter_status name value) s =
      tell (parameter_status name value) (ok proceed) send_failed s
  auth_step (backend_key_data key) s = (ok proceed, record s { key_data = some key })
  auth_step authentication_cleartext_password s = reply (password_message password) s
  auth_step (authentication_md5_password salt) s = reply (password_message (md5_password salt)) s
  auth_step (authentication_sasl mechs) s =
      if supports_scram mechs
      then begin_scram (scram.new_client username password) s
      else (err no_scram, s)
  auth_step (authentication_sasl_continue payload) s = continue_scram s.conversation payload s
  auth_step (authentication_sasl_final payload) s = finish_scram s.conversation payload s
  auth_step _ s = (ok proceed, s)

  abbrev pub go_on :
      (Session Conv → Outcome (Unit {0}) × Session Conv)
      → Outcome Verdict × Session Conv
      → Outcome (Unit {0}) × Session Conv
  go_on next (ok proceed, s) = next s
  go_on next (ok finished, s) = (ok tt, s)
  go_on next (err e, s) = (err e, s)
  go_on next (panics, s) = (panics, s)
  go_on next (blocks, s) = (blocks, s)

  -- The loop, over what PostgreSQL sends.
  unfoldable pub auth_loop :
      List (Event BackendMessage) → Session Conv → Outcome (Unit {0}) × Session Conv
  unfolding auth_step
  auth_loop [] s = (blocks, s)
  auth_loop (lost ∷ script) s = (err receive_failed, s)
  auth_loop (arrives m ∷ script) s = go_on (auth_loop script) (auth_step m s)
