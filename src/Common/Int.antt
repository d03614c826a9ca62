-- ===== src/Common/Int.antt =====
-- Signed numbers over the native ℕ: moments in nanoseconds since the Unix epoch.
use Prim.Native.Nat.{ℕ, ◌+◌, ◌-◌, ◌*◌, ◌%◌, ◌^◌}
use mathlib.Core.Bool.{Bool, true, false}
use gprxy.Common.Tests.{ltb, leb, if◌then◌else◌}

infixl 60 ◌+ℤ◌
-- `negsuc n` is -(n + 1).
pub data ℤ : Type 0 where
  pos : ℕ → ℤ
  negsuc : ℕ → ℤ

abbrev pub ltb_ℤ : ℤ → ℤ → Bool
ltb_ℤ (pos a) (pos b) = ltb a b
ltb_ℤ (pos a) (negsuc b) = false
ltb_ℤ (negsuc a) (pos b) = true
ltb_ℤ (negsuc a) (negsuc b) = ltb b a

-- A moment and a duration later.
abbrev pub add_ℕ : ℤ → ℕ → ℤ
add_ℕ (pos n) k = pos (n + k)
add_ℕ (negsuc n) k = if leb k n then negsuc (n - k) else pos (k - n - 1)

abbrev pub scale : ℕ → ℤ → ℤ
scale k (pos n) = pos (n * k)
scale k (negsuc n) = negsuc ((n + 1) * k - 1)

abbrev pub second : ℕ
second = 1_000_000_000

abbrev pub minute : ℕ
minute = 60 * second

-- `time.Unix(sec, 0)`
abbrev pub unix : ℤ → ℤ
unix = scale second

-- The zero `time.Time`: 1 January of year 1.
abbrev pub zero_time : ℤ
zero_time = unix (negsuc 62135596799)

-- `a.After(b)`
abbrev pub after : ℤ → ℤ → Bool
after a b = ltb_ℤ b a

-- `time.Since(t) < d` and, with `t` in the future, `time.Until(t) < d`.
abbrev pub since_lt : ℤ → ℤ → ℕ → Bool
since_lt now t d = ltb_ℤ now (add_ℕ t d)

abbrev pub until_lt : ℤ → ℤ → ℕ → Bool
until_lt now t d = ltb_ℤ t (add_ℕ now d)

abbrev pub sub_ℕ : ℤ → ℕ → ℤ
sub_ℕ (pos n) k = if leb k n then pos (n - k) else negsuc (k - n - 1)
sub_ℕ (negsuc n) k = negsuc (n + k)

abbrev pub ◌+ℤ◌ : ℤ → ℤ → ℤ
t +ℤ pos k = add_ℕ t k
t +ℤ negsuc k = sub_ℕ t (k + 1)

-- The `int64` with the low 64 bits of a number.
abbrev pub int64 : ℤ → ℤ
int64 (pos n) = let m = n % 2 ^ 64 in if ltb m (2 ^ 63) then pos m else negsuc (2 ^ 64 - m - 1)
int64 (negsuc n) = let m = n % 2 ^ 64 in if ltb m (2 ^ 63) then negsuc m else pos (2 ^ 64 - m - 1)
