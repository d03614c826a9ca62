-- ===== src/Proxy/Cancelling.antt =====
-- internal/proxy/startup.go: the case of a CancelRequest.
use gprxy.Common.{
  ℕ, ◌≡◌, ◌≢◌, refl, ◌⊎◌, inl, inr, Bool, true, false, Option, none, some, [], ◌∷◌, ◌++◌, arith,
  Text_eq, Outcome, ok, ℕ_eq,
}
use gprxy.Protocol.{BackendKeyData}
use gprxy.Server.{get_connection_for_cancel_request}
use gprxy.Proxy.State.{World, Env}
use gprxy.Proxy.Cancel.{cancel_message, send_cancel}
use gprxy.Proxy.Startup.{written, cancelled, cancel_target, handle_cancel}

module _ {Conv : Type 0} (env : Env Conv) where
  abbrev Guarded : BackendKeyData → World → Outcome (Unit {0}) × World → Type 0
  Guarded k w (r, w') =
      (r ≢ ok tt)
      × ((w'.cancels ≡ w.cancels)
          ⊎ ((c : ℕ) × (get_connection_for_cancel_request k.process_id k.secret_key w.server
                ≡ some c)
              × (w'.cancels ≡ w.cancels ++ cancel_message k ∷ [])))

  cancelled-Guarded :
      (dialled written : Bool) (k : BackendKeyData) (c : ℕ) (w : World)
      → get_connection_for_cancel_request k.process_id k.secret_key w.server ≡ some c
      → Guarded k w (cancelled (send_cancel dialled written k w.cancels) w)
  unfolding send_cancel
  cancelled-Guarded false written k c w e = (λ h. ground arith, inl refl)
  cancelled-Guarded true false k c w e = (λ h. ground arith, inl refl)
  cancelled-Guarded true true k c w e = (λ h. ground arith, inr (c, e, refl))

  cancel_target-Guarded :
      (k : BackendKeyData) (w : World) (o : Option ℕ)
      → get_connection_for_cancel_request k.process_id k.secret_key w.server ≡ o
      → Guarded k w (cancel_target env o k w)
  cancel_target-Guarded k w none e = (λ h. ground arith, inl refl)
  cancel_target-Guarded k w (some c) e =
      cancelled-Guarded env.cancel_dialled env.cancel_written k c w e

  -- A cancel request never leads to the query loop. It is forwarded, as the 16-byte message with
  -- the same identifier and secret, only if a connection is registered under these.
  pub handle_cancel_lem :
      (k : BackendKeyData) (w : World)
      → ((handle_cancel env k w).0 ≢ ok tt)
        × (((handle_cancel env k w).1.cancels ≡ w.cancels)
            ⊎ ((c : ℕ) × (get_connection_for_cancel_request k.process_id k.secret_key w.server
                  ≡ some c)
                × ((handle_cancel env k w).1.cancels ≡ w.cancels ++ cancel_message k ∷ [])))
  unfolding handle_cancel
  handle_cancel_lem k w =
      cancel_target-Guarded k w
        (get_connection_for_cancel_request k.process_id k.secret_key w.server) refl
