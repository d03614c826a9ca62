-- ===== src/Cli/Login/Channels.antt =====
-- internal/cli/login.go: `login` while it waits for the code. A goroutine runs the callback server and
-- puts its result into one of two channels with room for one entry; `login` receives from `codeChan`.
use mathlib.Core.Path.{subst}
use gprxy.Common.{
  ◌≡◌, ◌≢◌, refl, sym, ◌∙◌, List, [], ◌∷◌, arith, Text, Outcome, ok, err, blocks, Error,
}

pub data Server : Type 0 where
  serving stopped : Server

-- Where `code := <-codeChan` has come to.
pub data Main : Type 0 where
  waiting : Main
  got : Text → Main

pub record Channels : Type 0 where
  pub server : Server
  pub main : Main
  pub code_chan : List Text
  pub err_chan : List Error

abbrev pub begin : Channels
begin = record { server = serving; main = waiting; code_chan = []; err_chan = [] }

-- The interleavings, when the callback server returns `r`.
pub data Step (r : Outcome Text) : Channels → Channels → Type 0 where
  put_code :
      (c : Channels) (code : Text)
      → r ≡ ok code
      → c.server ≡ serving
      → c.code_chan ≡ []
      → Step r c (record c { server = stopped; code_chan = code ∷ [] })
  put_err :
      (c : Channels) (e : Error)
      → r ≡ err e
      → c.server ≡ serving
      → c.err_chan ≡ []
      → Step r c (record c { server = stopped; err_chan = e ∷ [] })
  take_code :
      (c : Channels) (code : Text) (rest : List Text)
      → c.main ≡ waiting
      → c.code_chan ≡ code ∷ rest
      → Step r c (record c { main = got code; code_chan = rest })

pub data Reach (r : Outcome Text) : Channels → Channels → Type 0 where
  here : {c : Channels} → Reach r c c
  next : {c d e : Channels} → Reach r c d → Step r d e → Reach r c e

-- `login` after the receive: it goes on with a code, or waits for ever.
abbrev pub received : Main → Outcome Text
received waiting = blocks
received (got code) = ok code

module _ (r : Outcome Text) where
  abbrev Queued : List Text → Type 0
  Queued [] = Unit
  Queued (code ∷ codes) = (r ≡ ok code) × Queued codes

  abbrev Came : Main → Type 0
  Came waiting = Unit
  Came (got code) = r ≡ ok code

  abbrev CameFrom : Channels → Type 0
  CameFrom c = Came c.main × Queued c.code_chan

  Step-CameFrom : {c d : Channels} → Step r c d → CameFrom c → CameFrom d
  Step-CameFrom (put_code c code e s n) (m, a) = (m, (e, tt))
  Step-CameFrom (put_err c x e s n) (m, a) = (m, a)
  Step-CameFrom (take_code c code rest w n) (m, a) = subst Queued n a

  pub Reach-CameFrom : {c : Channels} → Reach r begin c → CameFrom c
  Reach-CameFrom here = (tt, tt)
  Reach-CameFrom (next run step) = Step-CameFrom step (Reach-CameFrom run)

  of_main : (m : Main) (code : Text) → Came m → received m ≡ ok code → r ≡ ok code
  of_main waiting code h e = absurd (ground arith)
  of_main (got c) code h e = h ∙ e

  -- A code that `login` goes on with is what the callback server returned.
  pub Reach-received :
      (c : Channels) (code : Text) → Reach r begin c → received c.main ≡ ok code → r ≡ ok code
  Reach-received c code run e = of_main c.main code (Reach-CameFrom run).0 e

-- A server that fails leaves `login` waiting, and after its error nothing can happen.
module _ (x : Error) where
  abbrev Stuck : Channels → Type 0
  Stuck c = (c.main ≡ waiting) × (c.code_chan ≡ [])

  not_code : (code : Text) → ◌≢◌ {A = Outcome Text} (err x) (ok code)
  not_code code e = ground arith

  not_cons : (c : Text) (cs : List Text) → ◌≢◌ {A = List Text} [] (c ∷ cs)
  not_cons c cs e = ground arith

  not_stopped : stopped ≢ serving
  not_stopped e = ground arith

  Step-Stuck : {c d : Channels} → Step (err x) c d → Stuck c → Stuck d
  Step-Stuck (put_code c code e s n) h = absurd (not_code code e)
  Step-Stuck (put_err c y e s n) h = h
  Step-Stuck (take_code c code rest w n) (m, k) = absurd (not_cons code rest (sym k ∙ n))

  pub Reach-Stuck : {c : Channels} → Reach (err x) begin c → Stuck c
  Reach-Stuck here = (refl, refl)
  Reach-Stuck (next run step) = Step-Stuck step (Reach-Stuck run)

  pub Step-stopped : {c d : Channels} → Step (err x) c d → Stuck c → c.server ≢ stopped
  Step-stopped (put_code c code e s n) h g = not_code code e
  Step-stopped (put_err c y e s n) h g = not_stopped (sym g ∙ s)
  Step-stopped (take_code c code rest w n) (m, k) g = not_cons code rest (sym k ∙ n)
