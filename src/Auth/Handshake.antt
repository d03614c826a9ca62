-- ===== src/Auth/Handshake.antt =====
-- The dialogue with PostgreSQL as a whole: how it ends well, and what the client can see of it.
use gprxy.Common.{
  ℕ, ◌≡◌, refl, sym, ap, ◌∙◌, ◌⊎◌, inl, inr, Option, List, [], ◌∷◌, ◌++◌, map, append-nil,
  append_assoc, arith, Text, All, Event, arrives, lost, Outcome, ok, err, panics, blocks,
}
use gprxy.Protocol.{
  BackendKeyData, BackendMessage, error_response, authentication_ok, parameter_status,
  backend_key_data, ready_for_query,
}
use gprxy.Auth.Backend.{Scram, Session, Verdict, proceed, finished, auth_step, go_on, auth_loop}
use gprxy.Auth.Forwarding.{forwarded, last_key, IsStep, Steps, auth_step-Steps}

abbrev pub arrive : List BackendMessage → List (Event BackendMessage)
arrive = map arrives

forwarded-cons :
    (m : BackendMessage) (ms : List BackendMessage)
    → forwarded (m ∷ ms) ≡ forwarded (m ∷ []) ++ forwarded ms
unfolding forwarded
forwarded-cons authentication_ok ms = refl
forwarded-cons (parameter_status k v) ms = refl
forwarded-cons (error_response e) ms = refl
forwarded-cons _ ms = refl

last_key-cons :
    (o : Option BackendKeyData) (m : BackendMessage) (ms : List BackendMessage)
    → last_key o (m ∷ ms) ≡ last_key (last_key o (m ∷ [])) ms
unfolding last_key
last_key-cons o (backend_key_data key) ms = refl
last_key-cons o (error_response e) ms = refl
last_key-cons o _ ms = refl

module _ {Conv : Type 0} where
  -- PostgreSQL sent `steps` and then ReadyForQuery: the client got what of the steps is forwarded,
  -- in order and nothing else, and the key is the last that PostgreSQL sent.
  pub record IsHandshake (script : List (Event BackendMessage)) (s s' : Session Conv) : Type 0 where
    pub steps : List BackendMessage
    pub status : ℕ
    pub rest : List (Event BackendMessage)
    pub script_eq : script ≡ arrive steps ++ arrives (ready_for_query status) ∷ rest
    pub no_end : All IsStep steps
    pub seen : s'.client.sent ≡ s.client.sent ++ forwarded steps
    pub key : s'.key_data ≡ last_key s.key_data steps

module _ {Conv : Type 0} (scram : Scram Conv) (md5_hex : Text → Text)
    (username password : Text) where
  abbrev loop : List (Event BackendMessage) → Session Conv → Outcome (Unit {0}) × Session Conv
  loop = auth_loop scram md5_hex username password

  IsHandshake-cons :
      (m : BackendMessage) (script : List (Event BackendMessage)) (s t s' : Session Conv)
      → Steps scram md5_hex username password m s proceed t
      → IsHandshake script t s'
      → IsHandshake (arrives m ∷ script) s s'
  IsHandshake-cons m script s t s' (seen, key, i) h = record {
    steps = m ∷ h.steps;
    status = h.status;
    rest = h.rest;
    script_eq = ap (λ r. arrives m ∷ r) h.script_eq;
    no_end = (i, h.no_end);
    seen =
        h.seen
        ∙ ap (λ x. x ++ forwarded h.steps) seen
        ∙ append_assoc s.client.sent (forwarded (m ∷ [])) (forwarded h.steps)
        ∙ ap (λ x. s.client.sent ++ x) (sym (forwarded-cons m h.steps));
    key = h.key ∙ ap (λ x. last_key x h.steps) key ∙ sym (last_key-cons s.key_data m h.steps);
  }

  go_on-eq-ok :
      (next : Session Conv → Outcome (Unit {0}) × Session Conv) (r : Outcome Verdict × Session Conv)
      (s' : Session Conv)
      → go_on scram md5_hex username password next r ≡ (ok tt, s')
      → ((t : Session Conv) × (r ≡ (ok proceed, t)) × (next t ≡ (ok tt, s')))
        ⊎ (r ≡ (ok finished, s'))
  go_on-eq-ok next (ok proceed, t) s' h = inl (t, refl, h)
  go_on-eq-ok next (ok finished, t) s' h = inr (ground arith)
  go_on-eq-ok next (err e, t) s' h = absurd (ground arith)
  go_on-eq-ok next (panics, t) s' h = absurd (ground arith)
  go_on-eq-ok next (blocks, t) s' h = absurd (ground arith)

  -- The dialogue ends well only by ReadyForQuery, with no ErrorResponse before it; the client has
  -- then got every AuthenticationOk and ParameterStatus in order, and nothing else: neither the key
  -- nor ReadyForQuery.
  pub auth_loop-IsHandshake :
      (script : List (Event BackendMessage)) (s s' : Session Conv)
      → loop script s ≡ (ok tt, s')
      → IsHandshake script s s'
  unfolding auth_loop
  auth_loop-IsHandshake [] s s' h = absurd (ground arith)
  auth_loop-IsHandshake (lost ∷ script) s s' h = absurd (ground arith)
  auth_loop-IsHandshake (arrives m ∷ script) s s' h =
      elim (go_on-eq-ok (loop script) (auth_step scram md5_hex username password m s) s' h) [
        | inl (t, e, h') ↦
            IsHandshake-cons m script s t s'
              (auth_step-Steps scram md5_hex username password m s proceed t e)
              (auth_loop-IsHandshake script t s' h')
        | inr e ↦ ended (auth_step-Steps scram md5_hex username password m s finished s' e)
      ]
    where
      ended : (tx : ℕ) × (m ≡ ready_for_query tx) × (s' ≡ s) → IsHandshake (arrives m ∷ script) s s'
      ended (tx, e, same) = record {
        steps = [];
        status = tx;
        rest = script;
        script_eq = ap (λ x. arrives x ∷ script) e;
        no_end = tt;
        seen = unfold forwarded in rw same (sym (append-nil s.client.sent));
        key = unfold last_key in ap (λ x. x.key_data) same;
      }
