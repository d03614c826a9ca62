-- ===== src/Common/Wires.antt =====
-- The two directions of a connection: what arrives on it, and what is written to it.
use Prim.Native.Nat.{ℕ, suc}
use mathlib.Core.Path.{◌≡◌}
use mathlib.Core.Bool.{Bool, true, false}
use mathlib.Core.List.{List, [], ◌∷◌, ◌++◌}
use native.Mathlib.Omega.{arith}
use gprxy.Common.Tests.{if◌then◌else◌}

-- The end of a list of events is silence: a read there waits for ever.
pub data Event (I : Type 0) : Type 0 where
  arrives : I → Event I
  lost : Event I

-- `accepts n` says whether the write number `n` succeeds.
pub record Sink (O : Type 0) : Type 0 where
  pub sent : List O
  pub accepts : ℕ → Bool
  pub tries : ℕ

module _ {O : Type 0} where
  unfoldable pub send : O → Sink O → Bool × Sink O
  send m k =
      if k.accepts k.tries
      then (true, record k { sent = k.sent ++ m ∷ []; tries = suc k.tries })
      else (false, record k { tries = suc k.tries })

  -- A sink that takes every write.
  abbrev pub open_sink : Sink O
  open_sink = record { sent = []; accepts = λ _. true; tries = 0 }

  pub send-sent_ok :
      (m : O) (k : Sink O) → (send m k).0 ≡ true → (send m k).1.sent ≡ k.sent ++ m ∷ []
  unfolding send
  send-sent_ok m k h = ground arith

  pub send-sent_failed : (m : O) (k : Sink O) → (send m k).0 ≡ false → (send m k).1.sent ≡ k.sent
  unfolding send
  send-sent_failed m k h = ground arith

-- The peer does not fall silent: after some messages the connection is lost.
module _ {I : Type 0} where
  abbrev pub Closes : List (Event I) → Type 0
  Closes [] = ⊥
  Closes (lost ∷ rest) = Unit
  Closes (arrives m ∷ rest) = Closes rest
