-- ===== src/Auth/Showing.antt =====
-- internal/auth/authenticator.go: what the client sees while it is authenticated.
use gprxy.Auth.DialogueView.{auth_loop-Shows}
use gprxy.Common.{
  ℕ, Bool, true, false, Bool-cases, inl, inr, Option, none, some, List, [], ◌∷◌, ◌≡◌, refl, Text,
  Text_eq, codes, ℤ, insert, Event, arrives, lost, Sink, send, Outcome, ok, err, panics, blocks,
}
use gprxy.Protocol.{
  BackendKeyData, BackendMessage, authentication_cleartext_password, FrontendMessage,
  startup_message, password_message, Packet, message, fatal,
}
use gprxy.Protocol.Stages.{
  Stage, opening, authenticating, ended, stage_after, Transcript, Conforms, Moves, send-Moves,
  Moves-Conforms, Leaves, continue-Leaves,
}
use gprxy.Roles.{ServiceAccount, RoleMapper, map_role}
use gprxy.Jwt.Keys.{Validator, Round}
use gprxy.Jwt.{OAuthContext, Parser, validate_jwt}
use gprxy.Auth.Backend.{Scram, Session, auth_loop}
use gprxy.Auth.{
  Attempt, send_error_to_client, refuse, password_of, take_password, asked, request_password,
  or_refuse, is_jwt, Login, of_account, of_context, resolve, started, key_or_panic, closed,
  with_backend, start_backend, authenticate_user,
}

-- The client is at this stage.
abbrev pub At : Stage → Attempt → Type 0
At st s = Transcript st s.client.sent

abbrev pub Seen : Attempt → Type 0
Seen s = Conforms s.client

-- A stage at which an error may be told.
abbrev Refusable : Attempt → Type 0
Refusable s =
    (st : Stage) × At st s × ((msg : Text) → stage_after st (message (fatal msg)) ≡ some ended)

opening-Refusable : (s : Attempt) → At opening s → Refusable s
unfolding stage_after
opening-Refusable s h = (opening, h, λ msg. refl)

authenticating-Refusable : (s : Attempt) → At authenticating s → Refusable s
unfolding stage_after
authenticating-Refusable s h = (authenticating, h, λ msg. refl)

refuse-Seen :
    (A : Type 0) (P : Attempt → Type 0) (msg : Text) (s : Attempt)
    → Refusable s
    → Leaves {A = A} P Seen (refuse msg s)
unfolding refuse send_error_to_client
refuse-Seen A P msg s (st, h, e) =
    Moves-Conforms st ended (send (message (fatal msg)) s.client)
      (send-Moves st ended (message (fatal msg)) s.client h (e msg))

password_of-Leaves :
    (m : FrontendMessage) (s : Attempt)
    → At authenticating s
    → Leaves (At authenticating) Refusable (password_of m, s)
password_of-Leaves (password_message p) s h = h
password_of-Leaves _ s h = authenticating-Refusable s h

take_password-Leaves :
    (inbox : List (Event FrontendMessage)) (s : Attempt)
    → At authenticating s
    → Leaves (At authenticating) Refusable (take_password inbox s)
take_password-Leaves [] s h = authenticating-Refusable s h
take_password-Leaves (lost ∷ rest) s h = authenticating-Refusable (record s { inbox = rest }) h
take_password-Leaves (arrives m ∷ rest) s h = password_of-Leaves m (record s { inbox = rest }) h

asked-Leaves :
    (k : Bool × Sink Packet) (s : Attempt)
    → Moves opening authenticating k
    → Leaves (At authenticating) Refusable (asked k s)
asked-Leaves (true, k) s h = take_password-Leaves s.inbox (record s { client = k }) h
asked-Leaves (false, k) s h = opening-Refusable (record s { client = k }) h

or_refuse-Leaves :
    {A : Type 0} (P : Attempt → Type 0) (msg : Text) (r : Outcome A × Attempt)
    → Leaves P Refusable r
    → Leaves P Seen (or_refuse msg r)
or_refuse-Leaves P msg (ok a, s) h = h
or_refuse-Leaves P msg (err e, s) h = refuse-Seen _ P msg s h
or_refuse-Leaves P msg (panics, s) (st, h, e) = (st, h)
or_refuse-Leaves P msg (blocks, s) (st, h, e) = (st, h)

module _ (wide : ℕ → ℕ) (parser : Parser) (mapper : RoleMapper) (round : Round) (now : ℤ) where
  of_account-Leaves :
      (r : Outcome ServiceAccount) (s : Attempt)
      → At authenticating s
      → Leaves (At authenticating) Seen (of_account wide parser mapper round now r s)
  of_account-Leaves (ok a) s h = h
  of_account-Leaves (err e) s h = refuse-Seen _ _ _ s (authenticating-Refusable s h)
  of_account-Leaves panics s h = (authenticating, h)
  of_account-Leaves blocks s h = (authenticating, h)

  of_context-Leaves :
      (r : Outcome OAuthContext × Validator) (s : Attempt)
      → At authenticating s
      → Leaves (At authenticating) Seen (of_context wide parser mapper round now r s)
  of_context-Leaves (ok o, v) s h =
      of_account-Leaves (map_role wide mapper o.roles) (record s { validator = v }) h
  of_context-Leaves (err e, v) s h =
      refuse-Seen _ _ _ (record s { validator = v })
        (authenticating-Refusable (record s { validator = v }) h)
  of_context-Leaves (panics, v) s h = (authenticating, h)
  of_context-Leaves (blocks, v) s h = (authenticating, h)

  resolve-Leaves :
      (user password : Text) (s : Attempt)
      → At authenticating s
      → Leaves (At authenticating) Seen (resolve wide parser mapper round now user password s)
  unfolding resolve
  resolve-Leaves user password s h = elim (Bool-cases (is_jwt password)) [
    | inl e ↦ rw e (of_context-Leaves (validate_jwt parser round now password s.validator) s h)
    | inr e ↦ rw e h
  ]

module _ {Conv : Type 0} (scram : Scram Conv) (md5_hex : Text → Text) where
  key_or_panic-Leaves :
      (o : Option BackendKeyData) (s : Attempt)
      → At authenticating s
      → Leaves (At authenticating) Seen (key_or_panic o, s)
  key_or_panic-Leaves none s h = (authenticating, h)
  key_or_panic-Leaves (some k) s h = h

  closed-Leaves :
      (s : Attempt) (r : Outcome (Unit {0}) × Session Conv)
      → Leaves
          (λ (t : Session Conv). Transcript authenticating t.client.sent)
          (λ t. Conforms t.client)
          r
      → Leaves (At authenticating) Seen (closed scram md5_hex s r)
  closed-Leaves s (ok _, t) h =
      key_or_panic-Leaves t.key_data (record s { client = t.client; backend = t.backend }) h
  closed-Leaves s (err e, t) h = h
  closed-Leaves s (panics, t) h = h
  closed-Leaves s (blocks, t) h = h

  started-Leaves :
      (script : List (Event BackendMessage)) (login : Login) (k : Bool × Sink FrontendMessage)
      (s : Attempt)
      → At authenticating s
      → Leaves (At authenticating) Seen (started k (with_backend scram md5_hex script login) s)
  unfolding with_backend
  started-Leaves script login (true, k) s h =
      closed-Leaves (record s { backend = k })
        (auth_loop scram md5_hex login.username login.secret script
          (record { client = s.client; backend = k; conversation = none; key_data = none }))
        (auth_loop-Shows scram md5_hex login.username login.secret script _ h)
  started-Leaves script login (false, k) s h =
      refuse-Seen _ _ _ (record s { backend = k })
        (authenticating-Refusable (record s { backend = k }) h)

  module _ (wide : ℕ → ℕ) (parser : Parser) (mapper : RoleMapper) (round : Round) (now : ℤ) where
    pub authenticate_user-Leaves :
        (dialled : Bool) (script : List (Event BackendMessage)) (user : Text) (s : Attempt)
        → At opening s
        → Leaves
            (At authenticating)
            Seen
            (authenticate_user scram md5_hex wide parser mapper round now dialled script user s)
    unfolding authenticate_user request_password start_backend stage_after
    authenticate_user-Leaves false script user s h = refuse-Seen _ _ _ s (opening-Refusable s h)
    authenticate_user-Leaves true script user s h =
        let password = or_refuse (codes "Authentication failed") (request_password s) in
        let login : Text → Attempt → Outcome Login × Attempt =
          λ p t. resolve wide parser mapper round now user p t in
        continue-Leaves (At authenticating) (At authenticating) Seen password.0 _ password.1
          (or_refuse-Leaves _ _ (request_password s) (
            asked-Leaves (send (message authentication_cleartext_password) s.client) s (
              send-Moves opening authenticating (message authentication_cleartext_password) s.client
                h refl)))
          (λ p h₁.
            continue-Leaves (At authenticating) (At authenticating) Seen (login p password.1).0 _
              (login p password.1).1
              (resolve-Leaves wide parser mapper round now user p password.1 h₁)
              (λ l h₂.
                let t = (login p password.1).1 in
                started-Leaves script l
                  (send (startup_message (insert (codes "user") l.username t.parameters)) t.backend)
                  (record t { parameters = insert (codes "user") l.username t.parameters }) h₂))
