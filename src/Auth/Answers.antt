-- ===== src/Auth/Answers.antt =====
-- What one step of the dialogue answers PostgreSQL.
use gprxy.Common.{
  Sink, ◌≡◌, refl, sym, ap, ◌∙◌, ◌⊎◌, inl, inr, Bool, true, false, Option, none, some, List, [],
  ◌∷◌, ◌++◌, arith, Text, codes, Event, arrives, send, send-sent_ok, send-sent_failed, Outcome, ok,
  err, Error, no_scram, Bool-cases, if◌then◌else◌,
}
use gprxy.Protocol.{
  Packet, message, BackendMessage, FrontendMessage, password_message, sasl_initial_response,
  sasl_response, error_response, authentication_ok, parameter_status, ready_for_query,
  authentication_cleartext_password, authentication_md5_password, authentication_sasl,
  authentication_sasl_continue, authentication_sasl_final,
}
use gprxy.Auth.Backend.{
  check_final, sent_to_client, sent_to_backend, Scram, Session, Verdict, proceed, tell, reply,
  md5_password, begin_scram, continue_scram, finish_scram, answer_first, answer_next,
  supports_scram, auth_step,
}

module _ {Conv : Type 0} (scram : Scram Conv) (md5_hex : Text → Text)
    (username password : Text) where
  abbrev after_round : Option (Text × Conv) → Conv → Conv
  after_round none conv = conv
  after_round (some (response, next)) conv = next

  abbrev after_payload : Text → Option Conv → Option Conv
  after_payload payload none = none
  after_payload payload (some conv) = some (after_round (scram.step conv payload) conv)

  -- The SCRAM conversation behind a message: one of these credentials, that has taken in what
  -- PostgreSQL sent since it began.
  unfoldable pub conversation_after : Option Conv → BackendMessage → Option Conv
  conversation_after o (authentication_sasl mechs) =
      after_payload [] (scram.new_client username password)
  conversation_after o (authentication_sasl_continue payload) = after_payload payload o
  conversation_after o (authentication_sasl_final payload) = after_payload payload o
  conversation_after o _ = o

  -- What a conversation responds to a payload.
  abbrev pub Responds : Option Conv → Text → Text → Type 0
  Responds o payload response =
      (conv : Conv) × (next : Conv) × (o ≡ some conv)
      × (scram.step conv payload ≡ some (response, next))

  -- The answers to a challenge under these credentials, with this conversation.
  abbrev pub IsReply : Option Conv → BackendMessage → FrontendMessage → Type 0
  IsReply o authentication_cleartext_password f = f ≡ password_message password
  IsReply o (authentication_md5_password salt) f =
      f ≡ password_message (md5_password scram md5_hex username password salt)
  IsReply o (authentication_sasl mechs) f =
      (supports_scram scram md5_hex username password mechs ≡ true)
      × ((response : Text) × (f ≡ sasl_initial_response (codes "SCRAM-SHA-256") response)
          × Responds (scram.new_client username password) [] response)
  IsReply o (authentication_sasl_continue payload) f =
      (response : Text) × (f ≡ sasl_response response) × Responds o payload response
  IsReply o _ f = ⊥

  -- The messages answer challenges of the script, in order, each challenge at most once.
  pub data Replies : Option Conv → List (Event BackendMessage) → List FrontendMessage → Type 0 where
    done : (o : Option Conv) (script : List (Event BackendMessage)) → Replies o script []
    silent :
        {o : Option Conv} {m : BackendMessage} {script : List (Event BackendMessage)}
        {fs : List FrontendMessage}
        → Replies (conversation_after o m) script fs
        → Replies o (arrives m ∷ script) fs
    answered :
        {o : Option Conv} {m : BackendMessage} {f : FrontendMessage}
        {script : List (Event BackendMessage)} {fs : List FrontendMessage}
        → IsReply o m f
        → Replies (conversation_after o m) script fs
        → Replies o (arrives m ∷ script) (f ∷ fs)

  -- A step sends PostgreSQL nothing, or one answer.
  abbrev pub Sends : BackendMessage → Session Conv → Outcome Verdict × Session Conv → Type 0
  Sends m s r =
      (r.1.backend.sent ≡ s.backend.sent)
      ⊎ ((f : FrontendMessage) × (r.1.backend.sent ≡ s.backend.sent ++ f ∷ [])
          × IsReply s.conversation m f)

  -- If the loop goes on, it is with this conversation.
  abbrev pub Converses : Option Conv → Outcome Verdict × Session Conv → Type 0
  Converses o (ok proceed, t) = t.conversation ≡ o
  Converses o _ = Unit

  abbrev AnswersOnce : BackendMessage → Session Conv → Outcome Verdict × Session Conv → Type 0
  AnswersOnce m s r = Sends m s r × Converses (conversation_after s.conversation m) r

  sent_to_backend-Converses :
      (o : Option Conv) (r : Bool × Sink FrontendMessage) (s : Session Conv)
      → s.conversation ≡ o
      → Converses o (sent_to_backend r s)
  sent_to_backend-Converses o (true, k) s e = e
  sent_to_backend-Converses o (false, k) s e = tt

  -- A reply of a session that differs from the step's in its conversation only.
  reply-AnswersOnce :
      (m : BackendMessage) (f : FrontendMessage) (s t : Session Conv)
      → t.backend ≡ s.backend
      → t.conversation ≡ conversation_after s.conversation m
      → IsReply s.conversation m f
      → AnswersOnce m s (reply f t)
  unfolding reply
  reply-AnswersOnce m f s t b e i = (
    elim (Bool-cases (send f t.backend).0) [
      | inl g ↦ inr (f, ground (arith, send-sent_ok f t.backend) ∙ ap (λ k. k.sent ++ f ∷ []) b, i)
      | inr g ↦ inl (ground (arith, send-sent_failed f t.backend) ∙ ap (λ k. k.sent) b)
    ],
    sent_to_backend-Converses (conversation_after s.conversation m) (send f t.backend) t e,
  )

  sent_to_client-AnswersOnce :
      (m : BackendMessage) (r : Bool × Sink Packet) (e : Error) (s : Session Conv)
      → conversation_after s.conversation m ≡ s.conversation
      → AnswersOnce m s (sent_to_client (ok proceed) e r s)
  sent_to_client-AnswersOnce m (true, k) e s c = (inl refl, sym c)
  sent_to_client-AnswersOnce m (false, k) e s c = (inl refl, tt)

  sent_to_client-failed :
      (m : BackendMessage) (r : Bool × Sink Packet) (e e' : Error) (s : Session Conv)
      → AnswersOnce m s (sent_to_client (err e) e' r s)
  sent_to_client-failed m (true, k) e e' s = (inl refl, tt)
  sent_to_client-failed m (false, k) e e' s = (inl refl, tt)

  begin_scram-AnswersOnce :
      (mechs : List Text) (s : Session Conv)
      → supports_scram scram md5_hex username password mechs ≡ true
      → (o : Option Conv) → scram.new_client username password ≡ o
      → AnswersOnce (authentication_sasl mechs) s (begin_scram scram md5_hex username password o s)
  begin_scram-AnswersOnce mechs s h none n = (inl refl, tt)
  begin_scram-AnswersOnce mechs s h (some c) n = first (scram.step c []) refl
    where
      first :
          (o : Option (Text × Conv))
          → scram.step c [] ≡ o
          → AnswersOnce
              (authentication_sasl mechs)
              s
              (answer_first scram md5_hex username password o (record s { conversation = some c }))
      first none e = (inl refl, tt)
      first (some (r, d)) e =
          reply-AnswersOnce (authentication_sasl mechs) _ s (record s { conversation = some d })
            refl (unfold conversation_after in rw (n, e) refl) (h, (r, refl, (c, d, n, e)))

  continue_scram-AnswersOnce :
      (payload : Text) (s : Session Conv) (o : Option Conv)
      → s.conversation ≡ o
      → AnswersOnce
          (authentication_sasl_continue payload)
          s
          (continue_scram scram md5_hex username password o payload s)
  continue_scram-AnswersOnce payload s none n = (inl refl, tt)
  continue_scram-AnswersOnce payload s (some c) n = next (scram.step c payload) refl
    where
      next :
          (o : Option (Text × Conv))
          → scram.step c payload ≡ o
          → AnswersOnce
              (authentication_sasl_continue payload)
              s
              (answer_next scram md5_hex username password o s)
      next none e = (inl refl, tt)
      next (some (r, d)) e =
          reply-AnswersOnce (authentication_sasl_continue payload) _ s
            (record s { conversation = some d }) refl (unfold conversation_after in rw (n, e) refl)
            (r, refl, (c, d, n, e))

  finish_scram-AnswersOnce :
      (payload : Text) (s : Session Conv) (o : Option Conv)
      → s.conversation ≡ o
      → AnswersOnce
          (authentication_sasl_final payload)
          s
          (finish_scram scram md5_hex username password o payload s)
  finish_scram-AnswersOnce payload s none n = (inl refl, tt)
  finish_scram-AnswersOnce payload s (some c) n = checked (scram.step c payload) refl
    where
      checked :
          (o : Option (Text × Conv))
          → scram.step c payload ≡ o
          → AnswersOnce
              (authentication_sasl_final payload)
              s
              (check_final scram md5_hex username password o s)
      checked none e = (inl refl, tt)
      checked (some (r, d)) e = (inl refl, unfold conversation_after in rw (n, e) refl)

  pub auth_step-AnswersOnce :
      (m : BackendMessage) (s : Session Conv)
      → AnswersOnce m s (auth_step scram md5_hex username password m s)
  unfolding auth_step tell conversation_after
  auth_step-AnswersOnce (error_response e) s =
      sent_to_client-failed (error_response e) (send (message (error_response e)) s.client) _ _ s
  auth_step-AnswersOnce authentication_ok s =
      sent_to_client-AnswersOnce authentication_ok (send (message authentication_ok) s.client) _ s
        refl
  auth_step-AnswersOnce (parameter_status k v) s =
      sent_to_client-AnswersOnce (parameter_status k v)
        (send (message (parameter_status k v)) s.client) _ s refl
  auth_step-AnswersOnce authentication_cleartext_password s =
      reply-AnswersOnce authentication_cleartext_password _ s s refl refl refl
  auth_step-AnswersOnce (authentication_md5_password salt) s =
      reply-AnswersOnce (authentication_md5_password salt) _ s s refl refl refl
  auth_step-AnswersOnce (authentication_sasl mechs) s =
      begin_if (supports_scram scram md5_hex username password mechs) refl
    where
      begin_if :
          (b : Bool)
          → supports_scram scram md5_hex username password mechs ≡ b
          → AnswersOnce (authentication_sasl mechs) s (
              if b
              then begin_scram scram md5_hex username password
                  (scram.new_client username password)
                  s
              else (err no_scram, s))
      begin_if true e = begin_scram-AnswersOnce mechs s e (scram.new_client username password) refl
      begin_if false e = (inl refl, tt)
  auth_step-AnswersOnce (authentication_sasl_continue payload) s =
      continue_scram-AnswersOnce payload s s.conversation refl
  auth_step-AnswersOnce (authentication_sasl_final payload) s =
      finish_scram-AnswersOnce payload s s.conversation refl
  auth_step-AnswersOnce (ready_for_query tx) s = (inl refl, tt)
  auth_step-AnswersOnce _ s = (inl refl, refl)
