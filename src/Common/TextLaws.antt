-- ===== src/Common/TextLaws.antt =====
-- Laws of the text functions that the components share.
use mathlib.Core.Path.{◌≡◌, refl}
use Prim.Native.Nat.{ℕ, ◌<◌}
use mathlib.Core.Logic.{◌≢◌, ◌⊎◌}
use mathlib.Core.Bool.{true, false}
use mathlib.Core.Option.{some}
use mathlib.Core.List.{[], ◌∷◌, ◌++◌}
use native.Mathlib.Omega.{arith}
use gprxy.Common.Tests.{All}
use gprxy.Common.Texts.{
  split_all, Text, has_prefix, drop_as, trim_prefix, split_two, lower_char, to_lower, is_empty,
}

abbrev pub NoChar : ℕ → Text → Type 0
NoChar sep = All (λ c. c ≢ sep)

pub split_two-append :
    (a b : Text) (sep : ℕ) → NoChar sep a → split_two (a ++ sep ∷ b) sep ≡ some (a, b)
unfolding split_two
split_two-append [] b sep h = ground arith
split_two-append (c ∷ a) b sep (p, h) = ground (arith, split_two-append a b sep h)

pub has_prefix-append : (p s : Text) → has_prefix (p ++ s) p ≡ true
unfolding has_prefix
has_prefix-append [] s = refl
has_prefix-append (c ∷ p) s = ground (arith, has_prefix-append p s)

pub drop_as-append : (p s : Text) → drop_as (p ++ s) p ≡ s
drop_as-append [] s = refl
drop_as-append (c ∷ p) s = drop_as-append p s

pub trim_prefix-append : (p s : Text) → trim_prefix (p ++ s) p ≡ s
unfolding trim_prefix
trim_prefix-append p s = rw (has_prefix-append p s) (drop_as-append p s)

pub is_empty-ne : (s : Text) → s ≢ [] → is_empty s ≡ false
is_empty-ne [] h = absurd (h refl)
is_empty-ne (c ∷ s) h = refl

-- No code point is an ASCII capital letter.
abbrev pub NotCapital : ℕ → Type 0
NotCapital c = (c < b'A') ⊎ (b'Z' < c)

pub to_lower-NotCapital :
    (wide : ℕ → ℕ) → ((c : ℕ) → NotCapital (wide c)) → (s : Text) → All NotCapital (to_lower wide s)
unfolding lower_char
to_lower-NotCapital wide h [] = tt
to_lower-NotCapital wide h (c ∷ s) = (ground (arith, h c), to_lower-NotCapital wide h s)

pub split_all-one : (sep : ℕ) (s : Text) → NoChar sep s → split_all s sep ≡ s ∷ []
unfolding split_all
split_all-one sep [] h = refl
split_all-one sep (c ∷ s) (p, h) = ground (arith, split_all-one sep s h)

pub split_all-append :
    (sep : ℕ) (s t : Text) → NoChar sep s → split_all (s ++ sep ∷ t) sep ≡ s ∷ split_all t sep
unfolding split_all
split_all-append sep [] t h = ground arith
split_all-append sep (c ∷ s) t (p, h) = ground (arith, split_all-append sep s t h)
