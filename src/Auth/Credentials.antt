-- ===== src/Auth/Credentials.antt =====
-- Under which credentials `AuthenticateUser` goes to PostgreSQL.
use gprxy.Common.{
  sym, ℕ, ◌≡◌, ◌≢◌, refl, ap, ◌∙◌, ◌⊎◌, inl, inr, true, false, List, [], ◌∷◌, arith, Text, Text_eq,
  ℤ, Event, arrives, lost, send, Outcome, ok, err, panics, blocks, Bool-cases,
}
use gprxy.Protocol.{FrontendMessage, message, authentication_cleartext_password}
use gprxy.Roles.{ServiceAccount, RoleMapper, map_role}
use gprxy.Jwt.Keys.{Validator, Round}
use gprxy.Jwt.{OAuthContext, Parser, validate_jwt}
use gprxy.Jwt.Validation.{IsAuthentic, validate_jwt-IsAuthentic}
use gprxy.Auth.{
  Attempt, refuse, take_password, request_password, or_refuse, is_jwt, Login, of_account,
  of_context, resolve,
}

-- A step that leaves the PostgreSQL side alone.
abbrev pub Keeps : Attempt → Attempt → Type 0
Keeps s t = (t.backend ≡ s.backend) × (t.parameters ≡ s.parameters)

pub refuse-Keeps : (A : Type 0) (msg : Text) (s : Attempt) → Keeps s (refuse {A = A} msg s).1
unfolding refuse
refuse-Keeps A msg s = (refl, refl)

pub refuse-err : {A : Type 0} (msg : Text) (s : Attempt) (a : A) → (refuse {A = A} msg s).0 ≢ ok a
unfolding refuse
refuse-err msg s a h = ground arith

take_password-Keeps :
    (inbox : List (Event FrontendMessage)) (s : Attempt) → Keeps s (take_password inbox s).1
take_password-Keeps [] s = (refl, refl)
take_password-Keeps (lost ∷ rest) s = (refl, refl)
take_password-Keeps (arrives m ∷ rest) s = (refl, refl)

pub request_password-Keeps : (s : Attempt) → Keeps s (request_password s).1
unfolding request_password
request_password-Keeps s = ground (
  arith,
  take_password-Keeps s.inbox
      (record s { client = (send (message authentication_cleartext_password) s.client).1 }),
)

pub or_refuse-Keeps :
    {A : Type 0} (msg : Text) (s : Attempt) (r : Outcome A × Attempt)
    → Keeps s r.1
    → Keeps s (or_refuse msg r).1
or_refuse-Keeps msg s (ok a, t) h = h
or_refuse-Keeps msg s (err e, t) (b, p) = let (b', p') = refuse-Keeps _ msg t in (b' ∙ b, p' ∙ p)
or_refuse-Keeps msg s (panics, t) h = h
or_refuse-Keeps msg s (blocks, t) h = h

pub or_refuse-eq-ok :
    {A : Type 0} (msg : Text) (r : Outcome A × Attempt) (a : A) (t : Attempt)
    → or_refuse msg r ≡ (ok a, t)
    → r ≡ (ok a, t)
or_refuse-eq-ok msg (ok b, s) a t h = h
or_refuse-eq-ok msg (err e, s) a t h = absurd (refuse-err msg s a (ap (λ x. x.0) h))
or_refuse-eq-ok msg (panics, s) a t h = absurd (ground arith)
or_refuse-eq-ok msg (blocks, s) a t h = absurd (ground arith)

module _ (wide : ℕ → ℕ) (parser : Parser) (mapper : RoleMapper) (round : Round) (now : ℤ) where
  -- The credentials that a password stands for: the client's own, or, for a token, those of the
  -- service account to which the roles of the token, authentic to the validator, are mapped.
  abbrev pub IsLogin : Validator → Text → Text → Login → Type 0
  IsLogin v user password login =
      ((is_jwt password ≡ false) × (login ≡ record { username = user; secret = password }))
      ⊎ ((c : OAuthContext) × (a : ServiceAccount) × (is_jwt password ≡ true)
          × IsAuthentic parser now password v c
          × (map_role wide mapper c.roles ≡ ok a)
          × (login ≡ record { username = a.username; secret = a.password }))

  of_account-Keeps :
      (r : Outcome ServiceAccount) (s : Attempt)
      → Keeps s (of_account wide parser mapper round now r s).1
  of_account-Keeps (ok a) s = (refl, refl)
  of_account-Keeps (err e) s = refuse-Keeps _ _ s
  of_account-Keeps panics s = (refl, refl)
  of_account-Keeps blocks s = (refl, refl)

  of_context-Keeps :
      (r : Outcome OAuthContext × Validator) (s : Attempt)
      → Keeps s (of_context wide parser mapper round now r s).1
  of_context-Keeps (ok c, v) s =
      of_account-Keeps (map_role wide mapper c.roles) (record s { validator = v })
  of_context-Keeps (err e, v) s = refuse-Keeps _ _ (record s { validator = v })
  of_context-Keeps (panics, v) s = (refl, refl)
  of_context-Keeps (blocks, v) s = (refl, refl)

  pub resolve-Keeps :
      (user password : Text) (s : Attempt)
      → Keeps s (resolve wide parser mapper round now user password s).1
  unfolding resolve
  resolve-Keeps user password s =
      ground (arith, of_context-Keeps (validate_jwt parser round now password s.validator) s)

  of_account-eq-ok :
      (r : Outcome ServiceAccount) (s t : Attempt) (login : Login)
      → of_account wide parser mapper round now r s ≡ (ok login, t)
      → (a : ServiceAccount) × (r ≡ ok a)
        × (login ≡ record { username = a.username; secret = a.password })
        × (t ≡ s)
  of_account-eq-ok (ok a) s t login h = (a, refl, ground arith, ground arith)
  of_account-eq-ok (err e) s t login h = absurd (refuse-err _ s login (ap (λ x. x.0) h))
  of_account-eq-ok panics s t login h = absurd (ground arith)
  of_account-eq-ok blocks s t login h = absurd (ground arith)

  of_context-eq-ok :
      (r : Outcome OAuthContext × Validator) (s t : Attempt) (login : Login)
      → of_context wide parser mapper round now r s ≡ (ok login, t)
      → (c : OAuthContext) × (a : ServiceAccount) × (r ≡ (ok c, r.1))
        × (map_role wide mapper c.roles ≡ ok a)
        × (login ≡ record { username = a.username; secret = a.password })
        × (t.validator ≡ r.1)
  of_context-eq-ok (ok c, v) s t login h =
      let (a, e, p, q) = of_account-eq-ok (map_role wide mapper c.roles) _ t login h in
      (c, a, refl, e, p, ap (λ x. x.validator) q)
  of_context-eq-ok (err e, v) s t login h =
      absurd (refuse-err _ (record s { validator = v }) login (ap (λ x. x.0) h))
  of_context-eq-ok (panics, v) s t login h = absurd (ground arith)
  of_context-eq-ok (blocks, v) s t login h = absurd (ground arith)

  pub resolve-IsLogin :
      (user password : Text) (s t : Attempt) (login : Login)
      → resolve wide parser mapper round now user password s ≡ (ok login, t)
      → IsLogin t.validator user password login
  unfolding resolve
  resolve-IsLogin user password s t login h = elim (Bool-cases (is_jwt password)) [
    | inl e ↦
        let r = validate_jwt parser round now password s.validator in
        let (c, a, valid, mapped, p, q) = of_context-eq-ok r s t login (rw e at h) in
        inr (
          c,
          a,
          e,
          validate_jwt-IsAuthentic parser round now password s.validator t.validator c
              (valid ∙ ap (λ v. (ok c, v)) (sym q)),
          mapped,
          p,
        )
    | inr e ↦ inl (e, own (rw e at h))
  ]
    where
      own :
          ◌≡◌ {A = Outcome Login × Attempt}
            (ok (record { username = user; secret = password }), s)
            (ok login, t)
          → login ≡ record { username = user; secret = password }
      own p = ground arith
