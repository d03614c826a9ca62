-- ===== src/Auth/Forwarding.antt =====
-- What the client sees of the dialogue with PostgreSQL.
use gprxy.Common.{
  ℕ, ◌≡◌, ◌≢◌, refl, ap, Option, none, some, List, [], ◌∷◌, ◌++◌, append-nil, arith, Text, Event,
  send-sent_ok, Outcome, ok, err, Error,
}
use gprxy.Protocol.{
  BackendKeyData, BackendMessage, FrontendMessage, error_response, authentication_ok,
  authentication_cleartext_password, authentication_md5_password, authentication_sasl,
  authentication_sasl_continue, authentication_sasl_final, parameter_status, backend_key_data,
  ready_for_query, command_complete, other_backend, Packet, message,
}
use gprxy.Auth.Backend.{
  Scram, Session, Verdict, proceed, finished, tell, reply, begin_scram, continue_scram,
  finish_scram, answer_first, answer_next, check_final, auth_step, auth_loop,
}

-- What the client gets of messages that do not end the dialogue.
unfoldable pub forwarded : List BackendMessage → List Packet
forwarded [] = []
forwarded (authentication_ok ∷ ms) = message authentication_ok ∷ forwarded ms
forwarded (parameter_status k v ∷ ms) = message (parameter_status k v) ∷ forwarded ms
forwarded (_ ∷ ms) = forwarded ms

-- The key that was sent last.
unfoldable pub last_key : Option BackendKeyData → List BackendMessage → Option BackendKeyData
last_key o [] = o
last_key o (backend_key_data key ∷ ms) = last_key (some key) ms
last_key o (_ ∷ ms) = last_key o ms

-- Neither an error nor the end.
abbrev pub IsStep : BackendMessage → Type 0
IsStep (error_response e) = ⊥
IsStep (ready_for_query tx) = ⊥
IsStep _ = Unit

module _ {Conv : Type 0} where
  -- A step that sends nothing to the client, keeps the key and does not end the dialogue.
  abbrev IsQuiet : Session Conv → Outcome Verdict × Session Conv → Type 0
  IsQuiet s r =
      (r.1.client.sent ≡ s.client.sent) × (r.1.key_data ≡ s.key_data) × (r.0 ≢ ok finished)

  reply-IsQuiet : (m : FrontendMessage) (s : Session Conv) → IsQuiet s (reply m s)
  unfolding reply
  reply-IsQuiet m s = ground arith

  tell-proceed :
      (m : BackendMessage) (e : Error) (s s' : Session Conv)
      → tell m (ok proceed) e s ≡ (ok proceed, s')
      → (s'.client.sent ≡ s.client.sent ++ message m ∷ []) × (s'.key_data ≡ s.key_data)
  unfolding tell
  tell-proceed m e s s' h = ground (arith, send-sent_ok (message m) s.client)

  tell-finished :
      (m : BackendMessage) (e : Error) (s s' : Session Conv)
      → tell m (ok proceed) e s ≢ (ok finished, s')
  unfolding tell
  tell-finished m e s s' h = ground arith

  tell-err :
      (m : BackendMessage) (v : Verdict) (e e' : Error) (s s' : Session Conv)
      → tell m (err e) e' s ≢ (ok v, s')
  unfolding tell
  tell-err m v e e' s s' h = ground arith

module _ {Conv : Type 0} (scram : Scram Conv) (md5_hex : Text → Text)
    (username password : Text) where
  abbrev pub step : BackendMessage → Session Conv → Outcome Verdict × Session Conv
  step = auth_step scram md5_hex username password

  abbrev pub loop : List (Event BackendMessage) → Session Conv → Outcome (Unit {0}) × Session Conv
  loop = auth_loop scram md5_hex username password

  answer_first-IsQuiet :
      (o : Option (Text × Conv)) (s : Session Conv)
      → IsQuiet s (answer_first scram md5_hex username password o s)
  answer_first-IsQuiet none s = ground arith
  answer_first-IsQuiet (some (r, c)) s = reply-IsQuiet _ (record s { conversation = some c })

  begin_scram-IsQuiet :
      (o : Option Conv) (s : Session Conv)
      → IsQuiet s (begin_scram scram md5_hex username password o s)
  begin_scram-IsQuiet none s = ground arith
  begin_scram-IsQuiet (some c) s =
      answer_first-IsQuiet (scram.step c []) (record s { conversation = some c })

  answer_next-IsQuiet :
      (o : Option (Text × Conv)) (s : Session Conv)
      → IsQuiet s (answer_next scram md5_hex username password o s)
  answer_next-IsQuiet none s = ground arith
  answer_next-IsQuiet (some (r, c)) s = reply-IsQuiet _ (record s { conversation = some c })

  continue_scram-IsQuiet :
      (o : Option Conv) (payload : Text) (s : Session Conv)
      → IsQuiet s (continue_scram scram md5_hex username password o payload s)
  continue_scram-IsQuiet none payload s = ground arith
  continue_scram-IsQuiet (some c) payload s = answer_next-IsQuiet (scram.step c payload) s

  check_final-IsQuiet :
      (o : Option (Text × Conv)) (s : Session Conv)
      → IsQuiet s (check_final scram md5_hex username password o s)
  check_final-IsQuiet none s = ground arith
  check_final-IsQuiet (some (r, c)) s = ground arith

  finish_scram-IsQuiet :
      (o : Option Conv) (payload : Text) (s : Session Conv)
      → IsQuiet s (finish_scram scram md5_hex username password o payload s)
  finish_scram-IsQuiet none payload s = ground arith
  finish_scram-IsQuiet (some c) payload s = check_final-IsQuiet (scram.step c payload) s

  -- What a step does when it lets the loop go on, and when it ends the loop.
  abbrev pub Steps : BackendMessage → Session Conv → Verdict → Session Conv → Type 0
  Steps m s proceed s' =
      (s'.client.sent ≡ s.client.sent ++ forwarded (m ∷ []))
      × (s'.key_data ≡ last_key s.key_data (m ∷ []))
      × IsStep m
  Steps m s finished s' = (tx : ℕ) × (m ≡ ready_for_query tx) × (s' ≡ s)

  -- A quiet step for a message that is not forwarded.
  IsQuiet-Steps :
      (m : BackendMessage) (s : Session Conv) (r : Outcome Verdict × Session Conv) (v : Verdict)
      (s' : Session Conv)
      → forwarded (m ∷ []) ≡ []
      → last_key s.key_data (m ∷ []) ≡ s.key_data
      → IsStep m
      → IsQuiet s r
      → r ≡ (ok v, s')
      → Steps m s v s'
  IsQuiet-Steps m s r proceed s' f k i (a, b, c) h =
      (rw f (ground (arith, append-nil s.client.sent)), rw k (ground arith), i)
  IsQuiet-Steps m s r finished s' f k i (a, b, c) h = absurd (c (ap (λ x. x.0) h))

  pub auth_step-Steps :
      (m : BackendMessage) (s : Session Conv) (v : Verdict) (s' : Session Conv)
      → step m s ≡ (ok v, s')
      → Steps m s v s'
  unfolding auth_step forwarded last_key
  auth_step-Steps (error_response e) s v s' h = absurd (tell-err (error_response e) v _ _ s s' h)
  auth_step-Steps (ready_for_query tx) s finished s' h = (tx, refl, ground arith)
  auth_step-Steps (ready_for_query tx) s proceed s' h = absurd (ground arith)
  auth_step-Steps authentication_ok s proceed s' h =
      let (a, b) = tell-proceed authentication_ok _ s s' h in (a, b, tt)
  auth_step-Steps authentication_ok s finished s' h =
      absurd (tell-finished authentication_ok _ s s' h)
  auth_step-Steps (parameter_status k w) s proceed s' h =
      let (a, b) = tell-proceed (parameter_status k w) _ s s' h in (a, b, tt)
  auth_step-Steps (parameter_status k w) s finished s' h =
      absurd (tell-finished (parameter_status k w) _ s s' h)
  auth_step-Steps (backend_key_data key) s proceed s' h = ground (arith, append-nil s.client.sent)
  auth_step-Steps (backend_key_data key) s finished s' h = absurd (ground arith)
  auth_step-Steps authentication_cleartext_password s v s' h =
      IsQuiet-Steps authentication_cleartext_password s _ v s' refl refl tt (reply-IsQuiet _ s) h
  auth_step-Steps (authentication_md5_password salt) s v s' h =
      IsQuiet-Steps (authentication_md5_password salt) s _ v s' refl refl tt (reply-IsQuiet _ s) h
  auth_step-Steps (authentication_sasl mechs) s v s' h =
      IsQuiet-Steps (authentication_sasl mechs) s _ v s' refl refl tt (sasl-IsQuiet mechs s) h
    where
      sasl-IsQuiet :
          (names : List Text) (t : Session Conv)
          → IsQuiet t (auth_step scram md5_hex username password (authentication_sasl names) t)
      sasl-IsQuiet names t =
          ground (arith, begin_scram-IsQuiet (scram.new_client username password) t)
  auth_step-Steps (authentication_sasl_continue payload) s v s' h =
      IsQuiet-Steps (authentication_sasl_continue payload) s _ v s' refl refl tt
        (continue_scram-IsQuiet s.conversation payload s) h
  auth_step-Steps (authentication_sasl_final payload) s v s' h =
      IsQuiet-Steps (authentication_sasl_final payload) s _ v s' refl refl tt
        (finish_scram-IsQuiet s.conversation payload s) h
  auth_step-Steps (command_complete tag) s v s' h =
      IsQuiet-Steps (command_complete tag) s _ v s' refl refl tt (refl, refl, λ p. ground arith) h
  auth_step-Steps (other_backend tag) s v s' h =
      IsQuiet-Steps (other_backend tag) s _ v s' refl refl tt (refl, refl, λ p. ground arith) h
