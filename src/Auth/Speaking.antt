-- ===== src/Auth/Speaking.antt =====
-- internal/auth/authenticator.go: what PostgreSQL has been sent after the dialogue, and the key.
use mathlib.Core.Path.{subst}
use gprxy.Common.{
  ◌≡◌, refl, ap, ◌∙◌, ◌⊎◌, inl, inr, Bool, true, false, none, List, [], ◌∷◌, ◌++◌, append_assoc,
  arith, Text, codes, Text_eq, Map, insert, Event, Sink, send, send-sent_ok, send-sent_failed,
  Outcome, ok, err, panics, blocks,
}
use gprxy.Protocol.{BackendKeyData, BackendMessage, FrontendMessage, startup_message}
use gprxy.Auth.Backend.{Scram, Session, auth_loop}
use gprxy.Auth.Forwarding.{last_key}
use gprxy.Auth.Handshake.{IsHandshake, auth_loop-IsHandshake}
use gprxy.Auth.Answers.{Replies}
use gprxy.Auth.Replies.{auth_loop-Adds}
use gprxy.Auth.Credentials.{refuse-Keeps, refuse-err}
use gprxy.Auth.{Attempt, refuse, Login, started, key_or_panic, closed, with_backend, start_backend}

module _ {Conv : Type 0} (scram : Scram Conv) (md5_hex : Text → Text) where
  -- PostgreSQL was sent a startup message under the user of the login, and answers to its
  -- challenges under the credentials of the login.
  abbrev pub SpeaksAs : List (Event BackendMessage) → Login → Attempt → Attempt → Type 0
  SpeaksAs script login s t =
      (fs : List FrontendMessage) × (t.backend.sent
        ≡ s.backend.sent
          ++ startup_message (insert (codes "user") login.username s.parameters) ∷ fs)
      × Replies scram md5_hex login.username login.secret none script fs

  abbrev pub begin : Login → Attempt → Session Conv
  begin login s = record {
    client = s.client;
    backend = s.backend;
    conversation = none;
    key_data = none;
  }

  closed-backend :
      (s : Attempt) (r : Outcome (Unit {0}) × Session Conv)
      → (closed scram md5_hex s r).1.backend ≡ r.1.backend
  closed-backend s (ok _, t) = refl
  closed-backend s (err e, t) = refl
  closed-backend s (panics, t) = refl
  closed-backend s (blocks, t) = refl

  with_backend-Adds :
      (script : List (Event BackendMessage)) (login : Login) (s : Attempt)
      → (fs : List FrontendMessage) × ((with_backend scram md5_hex script login s).1.backend.sent
          ≡ s.backend.sent ++ fs)
        × Replies scram md5_hex login.username login.secret none script fs
  unfolding with_backend
  with_backend-Adds script login s =
      let session : Session Conv = record {
        client = s.client;
        backend = s.backend;
        conversation = none;
        key_data = none;
      } in
      let (fs, p, h) = auth_loop-Adds scram md5_hex login.username login.secret script session in
      (
        fs,
        ap (λ x. x.sent)
              (closed-backend s
                (auth_loop scram md5_hex login.username login.secret script session))
            ∙ p,
        h,
      )

  begun-SpeaksAs :
      (script : List (Event BackendMessage)) (login : Login) (s : Attempt)
      (k : Sink FrontendMessage)
      → let parameters = insert (codes "user") login.username s.parameters in
        send (startup_message parameters) s.backend ≡ (true, k)
        → SpeaksAs script login s
            (with_backend scram md5_hex script login
              (record s { parameters = parameters; backend = k })).1
  begun-SpeaksAs script login s k e =
      let parameters : Map Text Text = insert (codes "user") login.username s.parameters in
      let m : FrontendMessage = startup_message parameters in
      let (fs, p, h) =
        with_backend-Adds script login (record s { parameters = parameters; backend = k }) in
      let sent : k.sent ≡ s.backend.sent ++ m ∷ [] = ground (arith, send-sent_ok m s.backend) in
      (fs, p ∙ ap (λ x. x ++ fs) sent ∙ append_assoc s.backend.sent (m ∷ []) fs, h)

  pub start_backend-SpeaksAs :
      (script : List (Event BackendMessage)) (login : Login) (s : Attempt)
      → let t = (start_backend scram md5_hex script login s).1 in
        (t.backend.sent ≡ s.backend.sent) ⊎ SpeaksAs script login s t
  unfolding start_backend
  start_backend-SpeaksAs script login s = after (send m s.backend) refl
    where
      parameters : Map Text Text
      parameters = insert (codes "user") login.username s.parameters

      m : FrontendMessage
      m = startup_message parameters

      s' : Attempt
      s' = record s { parameters = parameters }

      after :
          (r : Bool × Sink FrontendMessage)
          → send m s.backend ≡ r
          → let t = (started r (with_backend scram md5_hex script login) s').1 in
            (t.backend.sent ≡ s.backend.sent) ⊎ SpeaksAs script login s t
      after (true, k) e = inr (begun-SpeaksAs script login s k e)
      after (false, k) e = inl (
          ap (λ x. x.sent) (refuse-Keeps _ _ (record s' { backend = k })).0
          ∙ (ground (arith, send-sent_failed m s.backend)))

  -- If the attempt succeeds, the startup message went out.
  pub start_backend-ok :
      (script : List (Event BackendMessage)) (login : Login) (s t : Attempt) (key : BackendKeyData)
      → start_backend scram md5_hex script login s ≡ (ok key, t)
      → SpeaksAs script login s t
  unfolding start_backend
  start_backend-ok script login s t key h = after (send m s.backend) refl h
    where
      m : FrontendMessage
      m = startup_message (insert (codes "user") login.username s.parameters)

      s' : Attempt
      s' = record s { parameters = insert (codes "user") login.username s.parameters }

      after :
          (r : Bool × Sink FrontendMessage)
          → send m s.backend ≡ r
          → started r (with_backend scram md5_hex script login) s' ≡ (ok key, t)
          → SpeaksAs script login s t
      after (true, k) e g =
          subst (SpeaksAs script login s) (ap (λ x. x.1) g) (begun-SpeaksAs script login s k e)
      after (false, k) e g = absurd (refuse-err _ (record s' { backend = k }) key (ap (λ x. x.0) g))

  closed-validator :
      (s : Attempt) (r : Outcome (Unit {0}) × Session Conv)
      → (closed scram md5_hex s r).1.validator ≡ s.validator
  closed-validator s (ok _, t) = refl
  closed-validator s (err e, t) = refl
  closed-validator s (panics, t) = refl
  closed-validator s (blocks, t) = refl

  pub start_backend-validator :
      (script : List (Event BackendMessage)) (login : Login) (s : Attempt)
      → (start_backend scram md5_hex script login s).1.validator ≡ s.validator
  unfolding start_backend with_backend refuse
  start_backend-validator script login s =
      after (send (startup_message (insert (codes "user") login.username s.parameters)) s.backend)
        (record s { parameters = insert (codes "user") login.username s.parameters })
    where
      after :
          (r : Bool × Sink FrontendMessage) (s' : Attempt)
          → (started r (with_backend scram md5_hex script login) s').1.validator ≡ s'.validator
      after (true, k) s' =
          closed-validator (record s' { backend = k })
            (auth_loop scram md5_hex login.username login.secret script
              (begin login (record s' { backend = k })))
      after (false, k) s' = refl

  -- When the dialogue has ended well, the attempt yields the last key that PostgreSQL sent; if it
  -- sent none, the dereference of the nil pointer panics.
  pub with_backend-key :
      (script : List (Event BackendMessage)) (login : Login) (s : Attempt) (t : Session Conv)
      → auth_loop scram md5_hex login.username login.secret script (begin login s) ≡ (ok tt, t)
      → (h : IsHandshake script (begin login s) t) × ((with_backend scram md5_hex script login s).0
          ≡ key_or_panic (last_key none h.steps))
  unfolding with_backend
  with_backend-key script login s t e =
      let h =
        auth_loop-IsHandshake scram md5_hex login.username login.secret script (begin login s) t
          e in
      (h, rw e (ap key_or_panic h.key))
