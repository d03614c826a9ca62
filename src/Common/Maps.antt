-- ===== src/Common/Maps.antt =====
-- Go maps as association lists: at most one entry of a key counts, the first.
use mathlib.Core.Path.{◌≡◌, refl}
use mathlib.Core.Option.{Option, none, some}
use mathlib.Core.List.{List, [], ◌∷◌}
use native.Mathlib.Omega.{arith}
use gprxy.Common.Tests.{if◌then◌else◌, Eq, ◌==◌, ==_refl, All, Bool-cases}
use mathlib.Core.Path.{subst, ap₂}
use mathlib.Core.Logic.{inl, inr}

abbrev pub Map {ℓ κ} : Type ℓ → Type κ → Type (ℓ ⊔ κ)
Map K V = List (K × V)

module _ {ℓ κ} {K : Type ℓ} {V : Type κ} ⦃e : Eq K⦄ where
  unfoldable pub lookup : K → Map K V → Option V
  lookup k [] = none
  lookup k ((j, v) ∷ m) = if j == k then some v else lookup k m

  unfoldable pub insert : K → V → Map K V → Map K V
  insert k v [] = (k, v) ∷ []
  insert k v ((l, u) ∷ rest) = if l == k then (k, v) ∷ rest else (l, u) ∷ insert k v rest

  -- `delete(m, k)`
  unfoldable pub remove : K → Map K V → Map K V
  remove k [] = []
  remove k ((j, v) ∷ m) = if j == k then remove k m else (j, v) ∷ remove k m

  pub lookup-insert :
      (k other : K) (new : V) (m : Map K V)
      → lookup other (insert k new m) ≡ (if k == other then some new else lookup other m)
  unfolding lookup insert
  lookup-insert k other new [] = refl
  lookup-insert k other new ((l, u) ∷ rest) =
      ground
        (arith, lookup-insert k other new rest, e.beq_iff l k, e.beq_iff l other, e.beq_iff k other)

  pub lookup-remove :
      (k j : K) (m : Map K V) → lookup j (remove k m) ≡ (if k == j then none else lookup j m)
  unfolding lookup remove
  lookup-remove k j [] = ground arith
  lookup-remove k j ((i, w) ∷ m) =
      ground (arith, e.beq_iff k j, e.beq_iff i k, e.beq_iff i j, lookup-remove k j m)

module _ {ℓ κ} {K : Type ℓ} {V : Type κ} ⦃e : Eq K⦄ where
  pub lookup-insert_self : (k : K) (v : V) (m : Map K V) → lookup k (insert k v m) ≡ some v
  lookup-insert_self k v m = rw (lookup-insert k k v m, ==_refl k)

  pub lookup-remove_self : (k : K) (m : Map K V) → lookup k (remove k m) ≡ none
  lookup-remove_self k m = rw (lookup-remove k k m, ==_refl k)

pub ruleset map_laws = (lookup-insert, lookup-remove)

-- What holds of every entry holds of the entry found, and of every entry after an insertion.
module _ {ℓ κ μ} {K : Type ℓ} {V : Type κ} ⦃e : Eq K⦄ (P : K × V → Type μ) where
  pub lookup-All : (k : K) (m : Map K V) {v : V} → All P m → lookup k m ≡ some v → P (k, v)
  unfolding lookup
  lookup-All k [] h p = cc
  lookup-All k ((j, w) ∷ m) {v} (q, h) p = elim (Bool-cases (j == k)) [
    | inl same ↦
        let e' : ◌≡◌ {A = K × V} (j, w) (k, v) =
          ap₂ (λ a b. (a, b)) ((e.beq_iff j k).0 same) (ground arith) in
        subst P e' q
    | inr other ↦ lookup-All k m h (ground arith)
  ]

  pub insert-All : (k : K) (v : V) (m : Map K V) → P (k, v) → All P m → All P (insert k v m)
  unfolding insert
  insert-All k v [] p h = (p, tt)
  insert-All k v ((j, w) ∷ m) p (q, h) = elim (Bool-cases (j == k)) [
    | inl same ↦ rw same (p, h)
    | inr other ↦ rw other (q, insert-All k v m p h)
  ]
