-- ===== src/Server/Shutdown.antt =====
-- internal/proxy/server.go: `Start` and its shutdown, as interleavings of the accept loop, the
-- goroutines that it starts and the signal.
use gprxy.Common.{ℕ, zero, suc, ◌≡◌, refl, sym, ◌∙◌, Bool, true, false, arith}

-- The accept loop, then the wait for the wait group, then the return.
pub data Phase : Type 0 where
  accepting waiting returned : Phase

pub record Start : Type 0 where
  pub phase : Phase
  -- `ctx` is done, and the listener closed.
  pub signalled : Bool
  -- The counter of the wait group.
  pub count : ℕ
  -- Goroutines of the accept loop that have not yet started their handler.
  pub starting : ℕ
  -- Handlers, `go pc.handleConnection()`, that have not returned.
  pub handling : ℕ

abbrev pub begin : Start
begin = record { phase = accepting; signalled = false; count = 0; starting = 0; handling = 0 }

pub data Step : Start → Start → Type 0 where
  -- `Accept` yields a connection: `wg.Add(1)` and the outer goroutine.
  accept :
      (s : Start)
      → s.phase ≡ accepting
      → Step s (record s { count = suc s.count; starting = suc s.starting })
  -- The outer goroutine starts the handler in a goroutine of its own, and `wg.Done` runs.
  launch :
      (s : Start) {m n : ℕ}
      → s.starting ≡ suc m
      → s.count ≡ suc n
      → Step s (record s { count = n; starting = m; handling = suc s.handling })
  finish : (s : Start) {n : ℕ} → s.handling ≡ suc n → Step s (record s { handling = n })
  signal : (s : Start) → Step s (record s { signalled = true })
  -- `Accept` fails: after the signal the loop is left, before it the error is only logged.
  leave :
      (s : Start) → s.phase ≡ accepting → s.signalled ≡ true → Step s (record s { phase = waiting })
  retry : (s : Start) → s.phase ≡ accepting → s.signalled ≡ false → Step s s
  -- `wg.Wait` returns, and `Start` with it.
  stop : (s : Start) → s.phase ≡ waiting → s.count ≡ 0 → Step s (record s { phase = returned })

pub data Reach : Start → Start → Type 0 where
  here : {s : Start} → Reach s s
  next : {s t u : Start} → Reach s t → Step t u → Reach s u

-- The counter counts the outer goroutines, not the handlers, and is 0 after the return.
abbrev Inv : Start → Type 0
Inv s = (s.count ≡ s.starting) × (s.phase ≡ returned → s.count ≡ 0)

Step-Inv : {s t : Start} → Step s t → Inv s → Inv t
Step-Inv (accept s a) (c, h) = (omega arith, λ e. ground arith)
Step-Inv (launch s a b) (c, h) = (omega arith, λ e. omega (arith, h e))
Step-Inv (finish s a) i = i
Step-Inv (signal s) i = i
Step-Inv (leave s a b) (c, h) = (c, λ e. ground arith)
Step-Inv (retry s a b) i = i
Step-Inv (stop s a b) (c, h) = (c, λ e. b)

Reach-Inv : {s t : Start} → Inv s → Reach s t → Inv t
Reach-Inv h here = h
Reach-Inv h (next r st) = Step-Inv st (Reach-Inv h r)

-- When `Start` has returned, every accepted connection has been handed to its handler.
pub Reach-started : {s : Start} → Reach begin s → s.phase ≡ returned → s.starting ≡ 0
Reach-started r e = let (c, h) = Reach-Inv (refl, λ e'. refl) r in sym c ∙ h e

-- A run that accepts `n` connections and starts their handlers.
serve : (n : ℕ) → Reach begin (record begin { handling = n })
serve zero = here
serve (suc n) =
    next (next (serve n) (accept (record begin { handling = n }) refl))
      (launch (record begin { handling = n; count = 1; starting = 1 }) refl refl)

-- For every n there is a run in which `Start` returns while n handlers are still running: the wait
-- group does not count the handlers.
pub returned_early : (n : ℕ) → (s : Start) × Reach begin s × (s.phase ≡ returned) × (s.handling ≡ n)
returned_early n = (
  record begin { handling = n; signalled = true; phase = returned },
  next
      (next (next (serve n) (signal (record begin { handling = n })))
        (leave (record begin { handling = n; signalled = true }) refl refl))
      (stop (record begin { handling = n; signalled = true; phase = waiting }) refl refl),
  refl,
  refl,
)
