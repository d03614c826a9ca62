-- ===== src/Server/Traffic.antt =====
-- internal/proxy/server.go: what other connections do to the registry.
use gprxy.Common.{ℕ, ◌≡◌, refl, ◌∙◌, Bool, false, ◌&&◌, List, [], ◌∷◌, All, nat_eq}
use gprxy.Server.{
  Server, register_connection, unregister_connection, get_connection_for_cancel_request,
}
use gprxy.Server.Keys.{IsU32}
use gprxy.Server.Registry.{get_connection_lem}

-- A call of a registry method, by its process identifier, its secret and its connection.
pub data Call : Type 0 where
  registers unregisters : ℕ → ℕ → ℕ → Call

abbrev pub call : (ℕ → Bool) → Call → Server → Server
call usable (registers q l conn) s = (register_connection usable q l conn s).1
call usable (unregisters q l conn) s = unregister_connection q l conn s

abbrev pub calls : (ℕ → Bool) → List Call → Server → Server
calls usable [] s = s
calls usable (c ∷ cs) s = calls usable cs (call usable c s)

-- The call is under another key.
abbrev pub Elsewhere : ℕ → ℕ → Call → Type 0
Elsewhere p k (registers q l conn) = IsU32 q × IsU32 l × ((nat_eq q p && nat_eq l k) ≡ false)
Elsewhere p k (unregisters q l conn) = IsU32 q × IsU32 l × ((nat_eq q p && nat_eq l k) ≡ false)

get_connection-call :
    (usable : ℕ → Bool) (p k : ℕ) (c : Call) (s : Server)
    → IsU32 p
    → IsU32 k
    → Elsewhere p k c
    → get_connection_for_cancel_request p k (call usable c s)
      ≡ get_connection_for_cancel_request p k s
get_connection-call usable p k (registers q l conn) s hp hk (hq, hl, e) =
    (get_connection_lem usable q l p k conn s hq hl hp hk).0 ∙ rw e refl
get_connection-call usable p k (unregisters q l conn) s hp hk (hq, hl, e) =
    (get_connection_lem usable q l p k conn s hq hl hp hk).1 ∙ rw e refl

-- Calls under other keys do not change what is found under this one.
pub get_connection-calls :
    (usable : ℕ → Bool) (p k : ℕ) (cs : List Call) (s : Server)
    → IsU32 p
    → IsU32 k
    → All (Elsewhere p k) cs
    → get_connection_for_cancel_request p k (calls usable cs s)
      ≡ get_connection_for_cancel_request p k s
get_connection-calls usable p k [] s hp hk h = refl
get_connection-calls usable p k (c ∷ cs) s hp hk (e, h) =
    get_connection-calls usable p k cs (call usable c s) hp hk h
    ∙ get_connection-call usable p k c s hp hk e
