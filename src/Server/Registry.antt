-- ===== src/Server/Registry.antt =====
-- What the registry answers after its operations, and what concurrent closings do to it.
use gprxy.Common.{
  ℕ, ◌≡◌, Bool, false, ◌&&◌, none, some, [], ◌∷◌, arith, Map, lookup, insert, ℕ_eq, nat_eq,
  lookup-insert, lookup-remove, if◌then◌else◌, panics,
}
use gprxy.Server.{
  Server, make_cancel_key, all_usable, register_connection, unregister_connection,
  get_connection_for_cancel_request,
}
use gprxy.Server.Keys.{IsU32, make_cancel_key-inj}

-- A cancel request names the connection exactly.
abbrev same : ℕ → ℕ → ℕ → ℕ → Bool
same p k q l = nat_eq p q && nat_eq k l

key_eq :
    (p k q l : ℕ)
    → IsU32 p
    → IsU32 k
    → IsU32 q
    → IsU32 l
    → nat_eq (make_cancel_key p k) (make_cancel_key q l) ≡ same p k q l
key_eq p k q l hp hk hq hl = ground (arith, make_cancel_key-inj p k q l hp hk hq hl)

-- After a registration a cancel request finds the new connection under its identifier and secret,
-- and under any others what it found before; after an unregistration nothing under these, and
-- under any others what it found before.
pub get_connection_lem :
    (usable : ℕ → Bool) (p k q l conn : ℕ) (s : Server)
    → IsU32 p
    → IsU32 k
    → IsU32 q
    → IsU32 l
    → (get_connection_for_cancel_request q l (register_connection usable p k conn s).1
        ≡ (if nat_eq p q && nat_eq k l then some conn else get_connection_for_cancel_request q l s))
      × (get_connection_for_cancel_request q l (unregister_connection p k conn s)
          ≡ (if nat_eq p q && nat_eq k l then none else get_connection_for_cancel_request q l s))
unfolding get_connection_for_cancel_request register_connection unregister_connection
get_connection_lem usable p k q l conn s hp hk hq hl = ground (
  arith,
  key_eq p k q l hp hk hq hl,
  lookup-insert (make_cancel_key p k) (make_cancel_key q l) conn s.active_connections,
  lookup-remove (make_cancel_key p k) (make_cancel_key q l) s.active_connections,
)

all_usable-false :
    (usable : ℕ → Bool) (m : Map ℕ ℕ) (key c : ℕ)
    → lookup key m ≡ some c
    → usable c ≡ false
    → all_usable usable m ≡ false
unfolding lookup
all_usable-false usable [] key c h u = absurd (ground arith)
all_usable-false usable ((j, d) ∷ m) key c h u = ground (arith, all_usable-false usable m key c)

-- A registration while another connection is registered whose pool connection was released already
-- panics: the log lines call methods of the released connection. (`handleConnection` releases the
-- pool connection before it unregisters.)
pub register_connection-panics :
    (usable : ℕ → Bool) (p k q l conn other : ℕ) (s : Server)
    → IsU32 p
    → IsU32 k
    → IsU32 q
    → IsU32 l
    → get_connection_for_cancel_request q l s ≡ some other
    → usable other ≡ false
    → (nat_eq p q && nat_eq k l) ≡ false
    → (register_connection usable p k conn s).0 ≡ panics
unfolding register_connection get_connection_for_cancel_request
register_connection-panics usable p k q l conn other s hp hk hq hl h u distinct = ground (
  arith,
  all_usable-false usable (insert (make_cancel_key p k) conn s.active_connections)
      (make_cancel_key q l) other,
  lookup-insert (make_cancel_key p k) (make_cancel_key q l) conn s.active_connections,
  key_eq p k q l hp hk hq hl,
)
