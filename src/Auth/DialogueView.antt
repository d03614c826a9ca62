-- ===== src/Auth/DialogueView.antt =====
-- internal/auth/authenticator.go: what the client sees of the dialogue with PostgreSQL.
use gprxy.Common.{
  Bool, true, false, Bool-cases, inl, inr, Option, none, some, List, [], ◌∷◌, refl, Text, Text_eq,
  codes, Event, arrives, lost, Sink, send, Outcome, ok, err, panics, blocks, Error,
}
use gprxy.Protocol.{
  BackendMessage, error_response, authentication_ok, authentication_cleartext_password,
  authentication_md5_password, authentication_sasl, authentication_sasl_continue,
  authentication_sasl_final, parameter_status, FrontendMessage, password_message,
  sasl_initial_response, sasl_response, Packet, message,
}
use gprxy.Protocol.Stages.{
  authenticating, ended, stage_after, Transcript, Conforms, Moves, send-Moves, Leaves,
}
use gprxy.Auth.Backend.{
  Scram, Session, Verdict, proceed, finished, sent_to_client, tell, sent_to_backend, reply,
  answer_first, begin_scram, answer_next, continue_scram, check_final, finish_scram, supports_scram,
  auth_step, go_on, auth_loop, md5_password,
}

module _ {Conv : Type 0} (scram : Scram Conv) (md5_hex : Text → Text)
    (username password : Text) where
  abbrev Asked : Session Conv → Type 0
  Asked s = Transcript authenticating s.client.sent

  -- A step of the dialogue leaves the client in it, or ends with what the protocol allows.
  abbrev Shows : {A : Type 0} → Outcome A × Session Conv → Type 0
  Shows = Leaves Asked (λ s. Conforms s.client)

  of_sent :
      (e : Error) (k : Bool × Sink Packet) (s : Session Conv)
      → Moves authenticating authenticating k
      → Shows (sent_to_client (ok proceed) e k s)
  of_sent e (true, k) s h = h
  of_sent e (false, k) s h = (authenticating, h)

  of_error :
      (e e' : Error) (k : Bool × Sink Packet) (s : Session Conv)
      → Moves authenticating ended k
      → Shows (sent_to_client (err e) e' k s)
  of_error e e' (true, k) s h = (ended, h)
  of_error e e' (false, k) s h = (authenticating, h)

  of_backend :
      (k : Bool × Sink FrontendMessage) (s : Session Conv) → Asked s → Shows (sent_to_backend k s)
  of_backend (true, k) s h = h
  of_backend (false, k) s h = (authenticating, h)

  of_first :
      (o : Option (Text × Conv)) (s : Session Conv)
      → Asked s
      → Shows (answer_first scram md5_hex username password o s)
  unfolding reply
  of_first none s h = (authenticating, h)
  of_first (some (response, conv)) s h =
      of_backend (send (sasl_initial_response (codes "SCRAM-SHA-256") response) s.backend)
        (record s { conversation = some conv }) h

  of_begin :
      (o : Option Conv) (s : Session Conv)
      → Asked s
      → Shows (begin_scram scram md5_hex username password o s)
  of_begin none s h = (authenticating, h)
  of_begin (some conv) s h = of_first (scram.step conv []) (record s { conversation = some conv }) h

  of_next :
      (o : Option (Text × Conv)) (s : Session Conv)
      → Asked s
      → Shows (answer_next scram md5_hex username password o s)
  unfolding reply
  of_next none s h = (authenticating, h)
  of_next (some (response, conv)) s h =
      of_backend (send (sasl_response response) s.backend) (record s { conversation = some conv }) h

  of_continue :
      (o : Option Conv) (payload : Text) (s : Session Conv)
      → Asked s
      → Shows (continue_scram scram md5_hex username password o payload s)
  of_continue none payload s h = (authenticating, h)
  of_continue (some conv) payload s h = of_next (scram.step conv payload) s h

  of_final :
      (o : Option (Text × Conv)) (s : Session Conv)
      → Asked s
      → Shows (check_final scram md5_hex username password o s)
  of_final none s h = (authenticating, h)
  of_final (some (response, conv)) s h = h

  of_finish :
      (o : Option Conv) (payload : Text) (s : Session Conv)
      → Asked s
      → Shows (finish_scram scram md5_hex username password o payload s)
  of_finish none payload s h = (authenticating, h)
  of_finish (some conv) payload s h = of_final (scram.step conv payload) s h

  auth_step-Shows :
      (m : BackendMessage) (s : Session Conv)
      → Asked s
      → Shows (auth_step scram md5_hex username password m s)
  unfolding auth_step tell reply stage_after
  auth_step-Shows (error_response e) s h =
      of_error _ _ (send (message (error_response e)) s.client) s
        (send-Moves authenticating ended (message (error_response e)) s.client h refl)
  auth_step-Shows authentication_ok s h =
      of_sent _ (send (message authentication_ok) s.client) s
        (send-Moves authenticating authenticating (message authentication_ok) s.client h refl)
  auth_step-Shows (parameter_status name value) s h =
      of_sent _ (send (message (parameter_status name value)) s.client) s (
        send-Moves authenticating authenticating (message (parameter_status name value)) s.client h
          refl)
  auth_step-Shows authentication_cleartext_password s h =
      of_backend (send (password_message password) s.backend) s h
  auth_step-Shows (authentication_md5_password salt) s h =
      of_backend
        (send (password_message (md5_password scram md5_hex username password salt)) s.backend) s h
  auth_step-Shows (authentication_sasl mechs) s h =
      elim (Bool-cases (supports_scram scram md5_hex username password mechs)) [
        | inl e ↦ rw e (of_begin (scram.new_client username password) s h)
        | inr e ↦ rw e (authenticating, h)
      ]
  auth_step-Shows (authentication_sasl_continue payload) s h =
      of_continue s.conversation payload s h
  auth_step-Shows (authentication_sasl_final payload) s h = of_finish s.conversation payload s h
  auth_step-Shows _ s h = h

  go_on-Shows :
      (next : Session Conv → Outcome (Unit {0}) × Session Conv) (r : Outcome Verdict × Session Conv)
      → ((s : Session Conv) → Asked s → Shows (next s))
      → Shows r
      → Shows (go_on scram md5_hex username password next r)
  go_on-Shows next (ok proceed, s) k h = k s h
  go_on-Shows next (ok finished, s) k h = h
  go_on-Shows next (err e, s) k h = h
  go_on-Shows next (panics, s) k h = h
  go_on-Shows next (blocks, s) k h = h

  pub auth_loop-Shows :
      (script : List (Event BackendMessage)) (s : Session Conv)
      → Asked s
      → Shows (auth_loop scram md5_hex username password script s)
  unfolding auth_loop
  auth_loop-Shows [] s h = (authenticating, h)
  auth_loop-Shows (lost ∷ script) s h = (authenticating, h)
  auth_loop-Shows (arrives m ∷ script) s h =
      go_on-Shows (auth_loop scram md5_hex username password script)
        (auth_step scram md5_hex username password m s) (auth_loop-Shows script)
        (auth_step-Shows m s h)
