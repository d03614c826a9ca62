-- ===== src/Protocol/Stages.antt =====
-- What a client may see on one connection: an abstract protocol, which internal/proxy and
-- internal/auth implement.
use mathlib.Core.Path.{subst}
use gprxy.Common.{
  ◌∙◌, ◌≡◌, sym, ap, refl, Bool, true, false, ◌||◌, Option, none, some, List, [], ◌∷◌, ◌++◌, nat_eq,
  if◌then◌else◌, Sink, send, send-sent_ok, send-sent_failed, Outcome, ok, err, panics, blocks,
  continue, Act,
}
use gprxy.Protocol.{
  error_response, authentication_ok, authentication_cleartext_password, parameter_status,
  backend_key_data, ready_for_query, Packet, message, byte,
}

pub data Stage : Type 0 where
  opening authenticating key_sent serving ended : Stage

-- The packets that a stage allows. The answers to requests for TLS come first. A password is asked
-- for once, and then come the messages of the authentication, the cancel key, and ReadyForQuery;
-- from there on it is PostgreSQL that speaks. An error of the proxy or of the authentication ends it.
unfoldable pub stage_after : Stage → Packet → Option Stage
stage_after opening (byte b) = if nat_eq b b'S' || nat_eq b b'N' then some opening else none
stage_after opening (message authentication_cleartext_password) = some authenticating
stage_after opening (message (error_response e)) = some ended
stage_after authenticating (message authentication_ok) = some authenticating
stage_after authenticating (message (parameter_status name value)) = some authenticating
stage_after authenticating (message (error_response e)) = some ended
stage_after authenticating (message (backend_key_data key)) = some key_sent
stage_after key_sent (message (ready_for_query tx)) = if nat_eq tx b'I' then some serving else none
stage_after serving (message m) = some serving
stage_after _ _ = none

-- A client that has seen these packets is at this stage.
pub data Transcript : Stage → List Packet → Type 0 where
  start : Transcript opening []
  extend :
      (st st' : Stage) (ps : List Packet) (p : Packet)
      → Transcript st ps
      → stage_after st p ≡ some st'
      → Transcript st' (ps ++ p ∷ [])

abbrev pub Conforms : Sink Packet → Type 0
Conforms k = (st : Stage) × Transcript st k.sent

-- A write that may have failed, and so may not have moved the client.
abbrev pub Moves : Stage → Stage → Bool × Sink Packet → Type 0
Moves st st' (true, k) = Transcript st' k.sent
Moves st st' (false, k) = Transcript st k.sent

pub send-Moves :
    (st st' : Stage) (p : Packet) (k : Sink Packet)
    → Transcript st k.sent
    → stage_after st p ≡ some st'
    → Moves st st' (send p k)
send-Moves st st' p k h e = of_send (send p k) refl
  where
    of_send : (r : Bool × Sink Packet) → send p k ≡ r → Moves st st' r
    of_send (true, k') g =
        subst (Transcript st') (sym (send-sent_ok p k (ap (λ x. x.0) g)) ∙ ap (λ x. x.1.sent) g)
          (extend st st' k.sent p h e)
    of_send (false, k') g =
        subst (Transcript st) (sym (send-sent_failed p k (ap (λ x. x.0) g)) ∙ ap (λ x. x.1.sent) g)
          h

-- Either way the packets seen are those of the protocol.
pub Moves-Conforms : (st st' : Stage) (r : Bool × Sink Packet) → Moves st st' r → Conforms r.1
Moves-Conforms st st' (true, k) h = (st', h)
Moves-Conforms st st' (false, k) h = (st, h)

-- A result leaves a state with `P`, every other end one with `Q`.
abbrev pub Leaves : {S A : Type 0} → (S → Type 0) → (S → Type 0) → Outcome A × S → Type 0
Leaves P Q (ok a, s) = P s
Leaves P Q (err e, s) = Q s
Leaves P Q (panics, s) = Q s
Leaves P Q (blocks, s) = Q s

pub continue-Leaves :
    {S A B : Type 0} (P P' Q : S → Type 0) (r : Outcome A) (f : A → Act S B) (s : S)
    → Leaves P Q (r, s)
    → ((a : A) → P s → Leaves P' Q (f a s))
    → Leaves P' Q (continue r f s)
continue-Leaves P P' Q (ok a) f s h k = k a h
continue-Leaves P P' Q (err e) f s h k = h
continue-Leaves P P' Q panics f s h k = h
continue-Leaves P P' Q blocks f s h k = h
