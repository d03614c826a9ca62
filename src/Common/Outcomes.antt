-- ===== src/Common/Outcomes.antt =====
-- How a Go function ends, and the errors of the program, a constructor for each place that makes one.
use Prim.Native.Nat.{ℕ}
use mathlib.Core.Path.{◌≡◌, refl}
use native.Mathlib.Omega.{arith}
use mathlib.Core.Logic.{◌≢◌}
use mathlib.Core.Bool.{Bool, true, false}
use gprxy.Common.Texts.{Text}

pub data Error : Type 0 where
  -- auth/roles.go
  no_valid_mappings no_mappings no_default_role : Error
  default_role_missing : Text → Error
  -- auth/jwt.go
  bad_method no_key_id key_unavailable parse_failed token_invalid bad_issuer : Error
  no_audience bad_audience bad_audience_type no_email no_subject token_expired : Error
  request_failed fetch_failed bad_jwks bad_modulus bad_exponent unknown_key : Error
  bad_status : ℕ → Error
  -- auth/errors.go, proxy/errors.go
  told_client : Text → Error
  -- auth/authenticator.go
  backend_rejected : Text → Error
  no_scram scram_client_failed scram_step_failed no_conversation not_a_password : Error
  -- pool/manager.go
  bad_pool_config pool_failed acquire_failed ping_failed : Error
  -- proxy/startup.go, connection.go, message.go, server.go
  tls_handshake_failed unknown_cancel_target cancel_done cancel_failed client_terminated : Error
  listen_failed reset_failed : Error
  -- cli
  bad_token_format bad_base64 bad_json no_credentials no_refresh_token not_configured : Error
  bad_port no_addresses lookup_failed unreachable : Error
  callback_error : Text → Error
  missing_code missing_state state_mismatch timed_out cancelled : Error
  -- the network
  receive_failed send_failed dial_failed : Error
  -- tls
  bad_certificate : Error

-- `blocks` is a call that never returns, since what it waits for does not come.
pub data Outcome {ℓ} (A : Type ℓ) : Type ℓ where
  ok : A → Outcome A
  err : Error → Outcome A
  panics : Outcome A
  blocks : Outcome A

-- A call to the outside that has no deadline.
pub data Extern {ℓ} (A : Type ℓ) : Type ℓ where
  returns : A → Extern A
  fails hangs : Extern A

-- A function on a state `S`: what it wrote before it failed stays written.
abbrev pub Act : Type 0 → Type 0 → Type 0
Act S A = S → Outcome A × S

abbrev pub continue : {S A B : Type 0} → Outcome A → (A → Act S B) → Act S B
continue (ok a) f s = f a s
continue (err e) f s = (err e, s)
continue panics f s = (panics, s)
continue blocks f s = (blocks, s)

infixl 5 ◌>>=◌ ◌>>◌
abbrev pub ◌>>=◌ : {S A B : Type 0} → Act S A → (A → Act S B) → Act S B
◌>>=◌ m f s = let (r, s') = m s in continue r f s'

abbrev pub ◌>>◌ : {S A B : Type 0} → Act S A → Act S B → Act S B
◌>>◌ m k = ◌>>=◌ m (λ _. k)

abbrev pub is_ok {ℓ} : {A : Type ℓ} → Outcome A → Bool
is_ok (ok a) = true
is_ok (err e) = false
is_ok panics = false
is_ok blocks = false

pub continue-ok :
    {S A B : Type 0} (r : Outcome A) (f : A → Act S B) (s t : S) (b : B)
    → continue r f s ≡ (ok b, t)
    → (a : A) × (r ≡ ok a) × (f a s ≡ (ok b, t))
continue-ok (ok a) f s t b h = (a, refl, h)
continue-ok (err e) f s t b h = absurd (ground arith)
continue-ok panics f s t b h = absurd (ground arith)
continue-ok blocks f s t b h = absurd (ground arith)

-- The call comes to an end, and if that is a result, this satisfies `P`.
abbrev pub Ends : {S A : Type 0} → (A → S → Type 0) → Outcome A × S → Type 0
Ends P (ok a, s) = P a s
Ends P (err e, s) = Unit
Ends P (panics, s) = Unit
Ends P (blocks, s) = ⊥

pub continue-Ends :
    {S A B : Type 0} (P : A → S → Type 0) (Q : B → S → Type 0) (r : Outcome A) (f : A → Act S B)
    (s : S)
    → Ends P (r, s)
    → ((a : A) → P a s → Ends Q (f a s))
    → Ends Q (continue r f s)
continue-Ends P Q (ok a) f s h k = k a h
continue-Ends P Q (err e) f s h k = tt
continue-Ends P Q panics f s h k = tt
continue-Ends P Q blocks f s h k = h

pub Ends-ne_blocks :
    {S A : Type 0} (P : A → S → Type 0) (r : Outcome A × S) → Ends P r → r.0 ≢ blocks
Ends-ne_blocks P (ok a, s) h e = absurd (ground arith)
Ends-ne_blocks P (err x, s) h e = absurd (ground arith)
Ends-ne_blocks P (panics, s) h e = absurd (ground arith)
Ends-ne_blocks P (blocks, s) h e = h
