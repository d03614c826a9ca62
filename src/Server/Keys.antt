-- ===== src/Server/Keys.antt =====
-- The keys of the registry.
use gprxy.Common.{ℕ, ◌+◌, ◌*◌, ◌%◌, ◌^◌, ◌<◌, ◌≡◌, ap, ◌∙◌, arith, bit_or, bit_or-shifted}
use gprxy.Server.{make_cancel_key}

-- Process identifiers and secrets are `uint32`.
abbrev pub IsU32 : ℕ → Type 0
IsU32 n = n < 2 ^ 32

make_cancel_key_lem : (p k : ℕ) → IsU32 p → IsU32 k → make_cancel_key p k ≡ p * 2 ^ 32 + k
unfolding make_cancel_key
make_cancel_key_lem p k hp hk = ap (λ t. bit_or t k) (no_overflow p hp) ∙ bit_or-shifted 32 p k hk
  where
    no_overflow : (q : ℕ) → q < 2 ^ 32 → q * 2 ^ 32 % 2 ^ 64 ≡ q * 2 ^ 32
    no_overflow q h = omega arith

-- A process identifier and a secret are told apart by their key, which fits in 64 bits.
pub make_cancel_key-inj :
    (p k q l : ℕ)
    → IsU32 p
    → IsU32 k
    → IsU32 q
    → IsU32 l
    → make_cancel_key p k ≡ make_cancel_key q l
    → (p ≡ q) × (k ≡ l) × (make_cancel_key p k < 2 ^ 64)
make_cancel_key-inj p k q l hp hk hq hl e =
    let a = make_cancel_key_lem p k hp hk in
    let b = make_cancel_key_lem q l hq hl in omega (arith, a, b, e)
