-- ===== src/Auth/Dialogue.antt =====
-- internal/auth/authenticator.go: the dialogue comes to an end when PostgreSQL does not fall silent.
use gprxy.Common.{
  Bool, true, false, Bool-cases, inl, inr, Option, none, some, List, [], ◌∷◌, Text, Text_eq, codes,
  Event, arrives, lost, Sink, send, Closes, Outcome, ok, err, panics, blocks, Error,
}
use gprxy.Protocol.{
  BackendMessage, error_response, authentication_ok, authentication_cleartext_password,
  authentication_md5_password, authentication_sasl, authentication_sasl_continue,
  authentication_sasl_final, parameter_status, FrontendMessage, password_message,
  sasl_initial_response, sasl_response, Packet, message,
}
use gprxy.Jwt.Ending.{Halts}
use gprxy.Auth.Backend.{
  Scram, Session, Verdict, proceed, finished, sent_to_client, tell, sent_to_backend, reply,
  answer_first, begin_scram, answer_next, continue_scram, check_final, finish_scram, supports_scram,
  auth_step, go_on, auth_loop, md5_password,
}

module _ {Conv : Type 0} (scram : Scram Conv) (md5_hex : Text → Text)
    (username password : Text) where
  sent_to_client-Halts :
      (r : Outcome Verdict) (e : Error) (k : Bool × Sink Packet) (s : Session Conv)
      → Halts (r, s)
      → Halts (sent_to_client r e k s)
  sent_to_client-Halts (ok v) e (true, k) s h = tt
  sent_to_client-Halts (err e') e (true, k) s h = tt
  sent_to_client-Halts panics e (true, k) s h = tt
  sent_to_client-Halts blocks e (true, k) s h = h
  sent_to_client-Halts r e (false, k) s h = tt

  sent_to_backend-Halts :
      (k : Bool × Sink FrontendMessage) (s : Session Conv) → Halts (sent_to_backend k s)
  sent_to_backend-Halts (true, k) s = tt
  sent_to_backend-Halts (false, k) s = tt

  answer_first-Halts :
      (o : Option (Text × Conv)) (s : Session Conv)
      → Halts (answer_first scram md5_hex username password o s)
  unfolding reply
  answer_first-Halts none s = tt
  answer_first-Halts (some (response, conv)) s =
      sent_to_backend-Halts
        (send (sasl_initial_response (codes "SCRAM-SHA-256") response) s.backend)
        (record s { conversation = some conv })

  begin_scram-Halts :
      (o : Option Conv) (s : Session Conv) → Halts (begin_scram scram md5_hex username password o s)
  begin_scram-Halts none s = tt
  begin_scram-Halts (some conv) s =
      answer_first-Halts (scram.step conv []) (record s { conversation = some conv })

  answer_next-Halts :
      (o : Option (Text × Conv)) (s : Session Conv)
      → Halts (answer_next scram md5_hex username password o s)
  unfolding reply
  answer_next-Halts none s = tt
  answer_next-Halts (some (response, conv)) s =
      sent_to_backend-Halts (send (sasl_response response) s.backend)
        (record s { conversation = some conv })

  continue_scram-Halts :
      (o : Option Conv) (payload : Text) (s : Session Conv)
      → Halts (continue_scram scram md5_hex username password o payload s)
  continue_scram-Halts none payload s = tt
  continue_scram-Halts (some conv) payload s = answer_next-Halts (scram.step conv payload) s

  check_final-Halts :
      (o : Option (Text × Conv)) (s : Session Conv)
      → Halts (check_final scram md5_hex username password o s)
  check_final-Halts none s = tt
  check_final-Halts (some (response, conv)) s = tt

  finish_scram-Halts :
      (o : Option Conv) (payload : Text) (s : Session Conv)
      → Halts (finish_scram scram md5_hex username password o payload s)
  finish_scram-Halts none payload s = tt
  finish_scram-Halts (some conv) payload s = check_final-Halts (scram.step conv payload) s

  auth_step-Halts :
      (m : BackendMessage) (s : Session Conv)
      → Halts (auth_step scram md5_hex username password m s)
  unfolding auth_step tell reply
  auth_step-Halts (error_response e) s =
      sent_to_client-Halts _ _ (send (message (error_response e)) s.client) s tt
  auth_step-Halts authentication_ok s =
      sent_to_client-Halts _ _ (send (message authentication_ok) s.client) s tt
  auth_step-Halts (parameter_status name value) s =
      sent_to_client-Halts _ _ (send (message (parameter_status name value)) s.client) s tt
  auth_step-Halts authentication_cleartext_password s =
      sent_to_backend-Halts (send (password_message password) s.backend) s
  auth_step-Halts (authentication_md5_password salt) s =
      sent_to_backend-Halts
        (send (password_message (md5_password scram md5_hex username password salt)) s.backend) s
  auth_step-Halts (authentication_sasl mechs) s =
      elim (Bool-cases (supports_scram scram md5_hex username password mechs)) [
        | inl e ↦ rw e (begin_scram-Halts (scram.new_client username password) s)
        | inr e ↦ rw e tt
      ]
  auth_step-Halts (authentication_sasl_continue payload) s =
      continue_scram-Halts s.conversation payload s
  auth_step-Halts (authentication_sasl_final payload) s =
      finish_scram-Halts s.conversation payload s
  auth_step-Halts _ s = tt

  go_on-Halts :
      (next : Session Conv → Outcome (Unit {0}) × Session Conv) (r : Outcome Verdict × Session Conv)
      → ((s : Session Conv) → Halts (next s))
      → Halts r
      → Halts (go_on scram md5_hex username password next r)
  go_on-Halts next (ok proceed, s) k h = k s
  go_on-Halts next (ok finished, s) k h = tt
  go_on-Halts next (err e, s) k h = tt
  go_on-Halts next (panics, s) k h = tt
  go_on-Halts next (blocks, s) k h = h

  pub auth_loop-Halts :
      (script : List (Event BackendMessage)) (s : Session Conv)
      → Closes script
      → Halts (auth_loop scram md5_hex username password script s)
  unfolding auth_loop
  auth_loop-Halts [] s c = c
  auth_loop-Halts (lost ∷ script) s c = tt
  auth_loop-Halts (arrives m ∷ script) s c =
      go_on-Halts (auth_loop scram md5_hex username password script)
        (auth_step scram md5_hex username password m s) (λ t. auth_loop-Halts script t c)
        (auth_step-Halts m s)
