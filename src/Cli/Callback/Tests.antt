-- ===== src/Cli/Callback/Tests.antt =====
-- The callback of one login, from the request to the code.
use gprxy.Common.{◌≡◌, refl, [], ◌∷◌, Text_eq, text_eq, codes, ok, state_mismatch}
use gprxy.Cli.Callback.{
  Request, respond, send_err, try_code, handler, Callback, begin, returned, waiting, request,
  select, write, deliver_code, Reach, here, next,
}
use gprxy.Cli.Callback.Vouching.{Granted, Reach-Granted}

abbrev granting : Request
granting = record { code = codes "c"; state = codes "s"; error = []; error_description = [] }

-- A forged callback: its state is not that of the login, and its handler goes on all the same.
handler_tests :
    (handler (codes "s") granting ≡ respond 200 ∷ try_code (codes "c") ∷ [])
    × (handler (codes "t") granting
        ≡ respond 400 ∷ send_err state_mismatch ∷ respond 200 ∷ try_code (codes "c") ∷ [])
unfolding handler text_eq
handler_tests = (refl, refl)

abbrev waited : Callback
waited = record { phase = returned (ok (codes "c")); handlers = [] ∷ []; seen = granting ∷ [] }

login_run : Reach (codes "s") begin waited
unfolding handler text_eq
login_run =
    next
      (next
        (next (next here (select begin refl)) (request (record begin { phase = waiting }) granting))
        (write
          (record {
            phase = waiting;
            handlers = (respond 200 ∷ try_code (codes "c") ∷ []) ∷ [];
            seen = granting ∷ [];
          })
          [] [] (try_code (codes "c") ∷ []) 200 refl))
      (deliver_code
        (record {
          phase = waiting;
          handlers = (try_code (codes "c") ∷ []) ∷ [];
          seen = granting ∷ [];
        })
        [] [] [] (codes "c") refl refl)

Reach-Granted_example : Granted (codes "s") (granting ∷ []) (codes "c")
Reach-Granted_example = Reach-Granted (codes "s") waited (codes "c") login_run refl
