-- ===== src/Cli/Callback/Vouching.antt =====
-- The code that `startCallbackServer` returns comes with the state of this login.
use mathlib.Core.Path.{subst}
use gprxy.Common.{
  ◌≡◌, refl, ◌⊎◌, inl, inr, true, false, Bool-cases, List, [], ◌∷◌, ◌++◌, Text, Text_eq, ◌==◌,
  text_eq_iff, is_empty, All, ok, err, panics, blocks,
}
use gprxy.Cli.Callback.{
  Request, Action, respond, send_err, try_code, handler, Phase, starting, waiting, returned,
  Callback, begin, Step, request, select, write, deliver_err, deliver_code, drop_code, fail_listen,
  time_out, cancel, Reach, here, next,
}

abbrev pub Came : Request → List Request → Type 0
Came r [] = ⊥
Came r (t ∷ ts) = (r ≡ t) ⊎ Came r ts

-- A callback that grants the code: with this state, and with no error.
pub record IsGrant (expected : Text) (r : Request) (code : Text) : Type 0 where
  pub code_eq : r.code ≡ code
  pub not_empty : is_empty code ≡ false
  pub state_eq : r.state ≡ expected
  pub no_error : is_empty r.error ≡ true

abbrev pub Granted : Text → List Request → Text → Type 0
Granted expected seen code = (r : Request) × Came r seen × IsGrant expected r code

module _ (expected : Text) where
  -- What follows a send of an error is run only after the return.
  abbrev Safe : List Request → List Action → Type 0
  Safe seen [] = Unit
  Safe seen (respond status ∷ acts) = Safe seen acts
  Safe seen (send_err e ∷ acts) = Unit
  Safe seen (try_code code ∷ acts) = Granted expected seen code × Safe seen acts

  Safe-more :
      (r : Request) (seen : List Request) (acts : List Action)
      → Safe seen acts
      → Safe (r ∷ seen) acts
  Safe-more r seen [] h = tt
  Safe-more r seen (respond status ∷ acts) h = Safe-more r seen acts h
  Safe-more r seen (send_err e ∷ acts) h = tt
  Safe-more r seen (try_code code ∷ acts) ((q, c, g), h) = ((q, inr c, g), Safe-more r seen acts h)

  abbrev AllSafe : List Request → List (List Action) → Type 0
  AllSafe seen = All (Safe seen)

  AllSafe-more :
      (r : Request) (seen : List Request) (hs : List (List Action))
      → AllSafe seen hs
      → AllSafe (r ∷ seen) hs
  AllSafe-more r seen [] h = tt
  AllSafe-more r seen (acts ∷ hs) (p, h) = (Safe-more r seen acts p, AllSafe-more r seen hs h)

  handler-Safe : (r : Request) (seen : List Request) → Safe (r ∷ seen) (handler expected r)
  unfolding handler
  handler-Safe r seen = elim (Bool-cases (is_empty r.error)) [
    | inr e ↦ rw e tt
    | inl e ↦ rw e (elim (Bool-cases (is_empty r.code)) [
      | inl c ↦ rw c tt
      | inr c ↦ rw c (elim (Bool-cases (is_empty r.state)) [
        | inl t ↦ rw t tt
        | inr t ↦ rw t (elim (Bool-cases (r.state == expected)) [
          | inr m ↦ rw m tt
          | inl m ↦ rw m (
            (
              r,
              inl refl,
              record {
                code_eq = refl;
                not_empty = c;
                state_eq = (text_eq_iff r.state expected).0 m;
                no_error = e;
              },
            ),
            tt,
          )
        ])
      ])
    ])
  ]

  -- One handler in the list comes further, and stays safe.
  AllSafe-advance :
      (seen : List Request) (front back : List (List Action)) (acts acts' : List Action)
      → (Safe seen acts → Safe seen acts')
      → AllSafe seen (front ++ acts ∷ back)
      → AllSafe seen (front ++ acts' ∷ back)
  AllSafe-advance seen [] back acts acts' f (p, h) = (f p, h)
  AllSafe-advance seen (a ∷ front) back acts acts' f (p, h) =
      (p, AllSafe-advance seen front back acts acts' f h)

  AllSafe-at :
      (seen : List Request) (front back : List (List Action)) (acts : List Action)
      → AllSafe seen (front ++ acts ∷ back)
      → Safe seen acts
  AllSafe-at seen [] back acts (p, h) = p
  AllSafe-at seen (a ∷ front) back acts (p, h) = AllSafe-at seen front back acts h

  abbrev InvAt : Phase → List Request → List (List Action) → Type 0
  InvAt starting seen hs = AllSafe seen hs
  InvAt waiting seen hs = AllSafe seen hs
  InvAt (returned (ok code)) seen hs = Granted expected seen code
  InvAt (returned _) seen hs = Unit

  abbrev Inv : Callback → Type 0
  Inv s = InvAt s.phase s.seen s.handlers

  InvAt-request :
      (p : Phase) (r : Request) (seen : List Request) (hs : List (List Action))
      → InvAt p seen hs
      → InvAt p (r ∷ seen) (handler expected r ∷ hs)
  InvAt-request starting r seen hs h = (handler-Safe r seen, AllSafe-more r seen hs h)
  InvAt-request waiting r seen hs h = (handler-Safe r seen, AllSafe-more r seen hs h)
  InvAt-request (returned (ok code)) r seen hs (q, c, g) = (q, inr c, g)
  InvAt-request (returned (err e)) r seen hs h = tt
  InvAt-request (returned panics) r seen hs h = tt
  InvAt-request (returned blocks) r seen hs h = tt

  InvAt-advance :
      (p : Phase) (seen : List Request) (hs front back : List (List Action))
      (acts acts' : List Action)
      → (Safe seen acts → Safe seen acts')
      → hs ≡ front ++ acts ∷ back
      → InvAt p seen hs
      → InvAt p seen (front ++ acts' ∷ back)
  InvAt-advance starting seen hs front back acts acts' f e h =
      AllSafe-advance seen front back acts acts' f (subst (AllSafe seen) e h)
  InvAt-advance waiting seen hs front back acts acts' f e h =
      AllSafe-advance seen front back acts acts' f (subst (AllSafe seen) e h)
  InvAt-advance (returned (ok code)) seen hs front back acts acts' f e h = h
  InvAt-advance (returned (err x)) seen hs front back acts acts' f e h = tt
  InvAt-advance (returned panics) seen hs front back acts acts' f e h = tt
  InvAt-advance (returned blocks) seen hs front back acts acts' f e h = tt

  Step-Inv : {s t : Callback} → Step expected s t → Inv s → Inv t
  Step-Inv (request s r) i = InvAt-request s.phase r s.seen s.handlers i
  Step-Inv (select s e) i = subst (λ p. InvAt p s.seen s.handlers) e i
  Step-Inv (write s front back acts status e) i =
      InvAt-advance s.phase s.seen s.handlers front back (respond status ∷ acts) acts (λ h. h) e i
  Step-Inv (deliver_err s front back acts e r w) i = tt
  Step-Inv (deliver_code s front back acts code r w) i =
      (AllSafe-at s.seen front back (try_code code ∷ acts)
        (subst (AllSafe s.seen) r (subst (λ p. InvAt p s.seen s.handlers) w i))).0
  Step-Inv (drop_code s front back acts code r w) i =
      InvAt-advance s.phase s.seen s.handlers front back (try_code code ∷ acts) acts (λ h. h.1) r i
  Step-Inv (fail_listen s w) i = tt
  Step-Inv (time_out s w) i = tt
  Step-Inv (cancel s w) i = tt

  Reach-Inv : {s : Callback} → Reach expected begin s → Inv s
  Reach-Inv here = tt
  Reach-Inv (next r step) = Step-Inv step (Reach-Inv r)

  -- Whatever requests come and however their handlers interleave: a code that
  -- `startCallbackServer` returns came in a callback with the state of this login, with no error,
  -- and is not empty.
  pub Reach-Granted :
      (s : Callback) (code : Text)
      → Reach expected begin s
      → s.phase ≡ returned (ok code)
      → Granted expected s.seen code
  Reach-Granted s code r e = subst (λ p. InvAt p s.seen s.handlers) e (Reach-Inv r)
