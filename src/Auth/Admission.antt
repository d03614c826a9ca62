-- ===== src/Auth/Admission.antt =====
-- What PostgreSQL and the client have seen when `AuthenticateUser` returns.
use mathlib.Core.Path.{subst}
use gprxy.Common.{
  ℕ, ◌≡◌, refl, sym, ap, ◌∙◌, ◌⊎◌, inl, inr, Bool, true, false, List, [], ◌∷◌, ◌++◌, arith, Text,
  codes, Text_eq, insert, ℤ, Event, arrives, lost, Sink, send, Outcome, ok, err, panics, blocks,
  continue, ◌>>=◌,
}
use gprxy.Protocol.{
  BackendMessage, FrontendMessage, startup_message, password_message,
  authentication_cleartext_password, Packet, message,
}
use gprxy.Roles.{RoleMapper}
use gprxy.Jwt.Keys.{Round}
use gprxy.Jwt.{Parser}
use gprxy.Auth.Backend.{Scram}
use gprxy.Auth.Credentials.{
  Keeps, refuse-Keeps, or_refuse-Keeps, request_password-Keeps, IsLogin, resolve-Keeps,
  resolve-IsLogin,
}
use gprxy.Auth.{
  Attempt, refuse, password_of, take_password, asked, request_password, or_refuse, Login, resolve,
  start_backend, authenticate_user,
}
use gprxy.Auth.Speaking.{SpeaksAs, start_backend-SpeaksAs, start_backend-validator}

module _ {Conv : Type 0} (scram : Scram Conv) (md5_hex : Text → Text) where
  module _ (wide : ℕ → ℕ) (parser : Parser) (mapper : RoleMapper) (round : Round) (now : ℤ)
      (script : List (Event BackendMessage)) (user : Text) (s : Attempt) where
    -- The next message of the client holds the password.
    abbrev pub Sends : Text → Type 0
    Sends password =
        (rest : List (Event FrontendMessage)) × (s.inbox
          ≡ arrives (password_message password) ∷ rest)

    abbrev pub LogsIn : Attempt → Type 0
    LogsIn t =
        (password : Text) × (login : Login) × Sends password
        × IsLogin wide parser mapper round now t.validator user password login
        × SpeaksAs scram md5_hex script login s t

    password_of-Sends :
        (m : FrontendMessage) (password : Text)
        → password_of m ≡ ok password
        → m ≡ password_message password
    password_of-Sends m password h = ground arith

    take_password-Sends :
        (inbox : List (Event FrontendMessage)) (t : Attempt) (password : Text)
        → (take_password inbox t).0 ≡ ok password
        → (rest : List (Event FrontendMessage)) × (inbox
            ≡ arrives (password_message password) ∷ rest)
    take_password-Sends [] t password h = absurd (ground arith)
    take_password-Sends (lost ∷ rest) t password h = absurd (ground arith)
    take_password-Sends (arrives m ∷ rest) t password h =
        (rest, ap (λ x. arrives x ∷ rest) (password_of-Sends m password h))

    asked-Sends :
        (q : Bool × Sink Packet) (password : Text) → (asked q s).0 ≡ ok password → Sends password
    asked-Sends (true, k) password h =
        take_password-Sends s.inbox (record s { client = k }) password h
    asked-Sends (false, k) password h = absurd (ground arith)

    or_refuse-ok :
        (msg password : Text) (r : Outcome Text × Attempt)
        → (or_refuse msg r).0 ≡ ok password
        → r.0 ≡ ok password
    unfolding refuse
    or_refuse-ok msg password (ok p, t) h = h
    or_refuse-ok msg password (err e, t) h = absurd (ground arith)
    or_refuse-ok msg password (panics, t) h = absurd (ground arith)
    or_refuse-ok msg password (blocks, t) h = absurd (ground arith)

    pub request_password-Sends :
        (password : Text)
        → (or_refuse (codes "Authentication failed") (request_password s)).0 ≡ ok password
        → Sends password
    unfolding request_password
    request_password-Sends password h =
        let sent : Bool × Sink Packet = send (message authentication_cleartext_password) s.client in
        asked-Sends sent password
          (or_refuse-ok (codes "Authentication failed") password (asked sent s) h)

    pub SpeaksAs-Keeps :
        (login : Login) (t t' : Attempt)
        → Keeps s t
        → SpeaksAs scram md5_hex script login t t'
        → SpeaksAs scram md5_hex script login s t'
    SpeaksAs-Keeps login t t' (b, p) (fs, e, h) = (
      fs,
      e
          ∙ ap
              (λ x.
                x.sent ++ startup_message (insert (codes "user") login.username t.parameters) ∷ fs)
              b
          ∙ ap
              (λ x. s.backend.sent ++ startup_message (insert (codes "user") login.username x) ∷ fs)
              p,
      h,
    )

    Keeps-SpeaksAs :
        (login : Login) (t t' : Attempt)
        → Keeps s t
        → (t'.backend.sent ≡ t.backend.sent) ⊎ SpeaksAs scram md5_hex script login t t'
        → (t'.backend.sent ≡ s.backend.sent) ⊎ SpeaksAs scram md5_hex script login s t'
    Keeps-SpeaksAs login t t' (b, p) (inl e) = inl (e ∙ ap (λ x. x.sent) b)
    Keeps-SpeaksAs login t t' k (inr h) = inr (SpeaksAs-Keeps login t t' k h)

    resolved :
        (password : Text) (r : Outcome Login × Attempt)
        → ((t : Attempt) (login : Login)
            → r ≡ (ok login, t)
            → IsLogin wide parser mapper round now t.validator user password login)
        → Keeps s r.1
        → Sends password
        → let t = (continue r.0 (start_backend scram md5_hex script) r.1).1 in
          (t.backend.sent ≡ s.backend.sent) ⊎ LogsIn t
    resolved password (ok login, t) own k sent =
        elim (Keeps-SpeaksAs login t (start_backend scram md5_hex script login t).1 k
          (start_backend-SpeaksAs scram md5_hex script login t)) [
            | inl e ↦ inl e
            | inr h ↦ inr (
              password,
              login,
              sent,
              subst (λ v. IsLogin wide parser mapper round now v user password login)
                  (sym (start_backend-validator scram md5_hex script login t)) (own t login refl),
              h,
            )
          ]
    resolved password (err e, t) own (b, p) sent = inl (ap (λ x. x.sent) b)
    resolved password (panics, t) own (b, p) sent = inl (ap (λ x. x.sent) b)
    resolved password (blocks, t) own (b, p) sent = inl (ap (λ x. x.sent) b)

    asked-LogsIn :
        (r : Outcome Text × Attempt)
        → Keeps s r.1
        → ((password : Text) → r.0 ≡ ok password → Sends password)
        → let t =
            (continue r.0
              (λ password.
                ◌>>=◌
                  (resolve wide parser mapper round now user password)
                  (start_backend scram md5_hex script))
              r.1).1 in
          (t.backend.sent ≡ s.backend.sent) ⊎ LogsIn t
    asked-LogsIn (ok password, t) (b, p) sends =
        let (b', p') = resolve-Keeps wide parser mapper round now user password t in
        resolved password (resolve wide parser mapper round now user password t)
          (λ t' login e. resolve-IsLogin wide parser mapper round now user password t t' login e)
          (b' ∙ b, p' ∙ p) (sends password refl)
    asked-LogsIn (err e, t) (b, p) sends = inl (ap (λ x. x.sent) b)
    asked-LogsIn (panics, t) (b, p) sends = inl (ap (λ x. x.sent) b)
    asked-LogsIn (blocks, t) (b, p) sends = inl (ap (λ x. x.sent) b)

    -- However `AuthenticateUser` ends, PostgreSQL was sent nothing, or a startup message and
    -- answers to its challenges under one login, made from the password that the client sends
    -- next: the client's own user and this password if it does not look like a token, and otherwise
    -- the service account that the roles of the token, authentic to the validator as it is left,
    -- are mapped to.
    pub authenticate_user-LogsIn :
        (dialled : Bool)
        → let t =
            (authenticate_user scram md5_hex wide parser mapper round now dialled script user
              s).1 in
          (t.backend.sent ≡ s.backend.sent) ⊎ LogsIn t
    unfolding authenticate_user
    authenticate_user-LogsIn false = inl (ap (λ x. x.sent) (refuse-Keeps _ _ s).0)
    authenticate_user-LogsIn true =
        asked-LogsIn (or_refuse (codes "Authentication failed") (request_password s))
          (or_refuse-Keeps _ s (request_password s) (request_password-Keeps s))
          request_password-Sends
