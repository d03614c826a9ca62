-- ===== src/Pool/Sharing.antt =====
-- One pool for a user and a database, whatever the interleaving of the calls.
use gprxy.Common.{
  ℕ, ◌≡◌, refl, sym, ap, ◌∙◌, Bool, true, false, Option, none, some, arith, Text, ◌==◌, lookup,
  insert, lookup-insert, lookup-insert_self, if◌then◌else◌, ok, Bool-cases, inl, inr,
}
use gprxy.Pool.{
  PoolKey, PoolKey_eq, key_eq_iff, ConnPool, Pools, Making, new_pool, create, or_create, or_lock,
  get_or_create_pool,
}

-- What a goroutine does to the map under the write lock, for any key and with any luck.
pub data Step : Pools → Pools → Type 0 where
  locked :
      (making : Making) (key : PoolKey) (url : Text) (m : Pools)
      → Step m (or_create making key url (lookup key m) m).1

pub data Reach (m : Pools) : Pools → Type 0 where
  here : Reach m m
  next : {n o : Pools} → Reach m n → Step n o → Reach m o

-- A registered pool stays registered.
abbrev pub Extends : Pools → Pools → Type 0
Extends m n =
    (key : PoolKey) (pool : ConnPool) → lookup key m ≡ some pool → lookup key n ≡ some pool

insert-Extends :
    (key : PoolKey) (new : ConnPool) (m : Pools)
    → lookup key m ≡ none
    → Extends m (insert key new m)
insert-Extends key new m absent j pool h = elim (Bool-cases (key == j)) [
  | inl e ↦ absurd (none-ne-some (sym absent ∙ ap (λ k. lookup k m) ((key_eq_iff key j).0 e) ∙ h))
  | inr e ↦ lookup-insert key j new m ∙ ap (λ b. if b then some new else lookup j m) e ∙ h
]
  where
    none-ne-some : ◌≡◌ {A = Option ConnPool} none (some pool) → ⊥
    none-ne-some p = cc

create-Extends :
    (key : PoolKey) (url : Text) (parses : Bool) (made : Option ℕ) (m : Pools)
    → lookup key m ≡ none
    → Extends m (create key url parses made m).1
create-Extends key url false made m absent j pool h = h
create-Extends key url true none m absent j pool h = h
create-Extends key url true (some id) m absent j pool h =
    insert-Extends key (new_pool id url) m absent j pool h

or_create-Extends :
    (making : Making) (key : PoolKey) (url : Text) (o : Option ConnPool) (m : Pools)
    → lookup key m ≡ o
    → Extends m (or_create making key url o m).1
or_create-Extends making key url (some p) m e j pool h = h
or_create-Extends making key url none m e j pool h =
    create-Extends key url making.parses making.made m e j pool h

pub Reach-Extends : {m n : Pools} → Reach m n → Extends m n
Reach-Extends here j pool h = h
Reach-Extends (next r (locked making key url n)) j pool h =
    or_create-Extends making key url (lookup key n) n refl j pool (Reach-Extends r j pool h)

create-registered :
    (key : PoolKey) (url : Text) (parses : Bool) (made : Option ℕ) (m n : Pools) (pool : ConnPool)
    → create key url parses made m ≡ (ok pool, n)
    → lookup key n ≡ some pool
create-registered key url false made m n pool h = absurd (ground arith)
create-registered key url true none m n pool h = absurd (ground arith)
create-registered key url true (some id) m n pool h =
    ground (arith, lookup-insert_self key (new_pool id url) m)

or_create-registered :
    (making : Making) (key : PoolKey) (url : Text) (o : Option ConnPool) (m n : Pools)
    (pool : ConnPool)
    → lookup key m ≡ o
    → or_create making key url o m ≡ (ok pool, n)
    → lookup key n ≡ some pool
or_create-registered making key url (some p) m n pool e h = ground arith
or_create-registered making key url none m n pool e h =
    create-registered key url making.parses making.made m n pool h

or_lock-registered :
    (making : Making) (key : PoolKey) (url : Text) (o : Option ConnPool) (m n : Pools)
    (pool : ConnPool)
    → lookup key m ≡ o
    → or_lock making key url o m ≡ (ok pool, n)
    → lookup key n ≡ some pool
or_lock-registered making key url (some p) m n pool e h = ground arith
or_lock-registered making key url none m n pool e h =
    or_create-registered making key url (lookup key (making.others m)) (making.others m) n pool refl
      h

-- The pool that a call returns is registered under its key in the map that it leaves.
get_or_create_pool-registered :
    (making : Making) (key : PoolKey) (url : Text) (m n : Pools) (pool : ConnPool)
    → get_or_create_pool making key url m ≡ (ok pool, n)
    → lookup key n ≡ some pool
unfolding get_or_create_pool
get_or_create_pool-registered making key url m n pool h =
    or_lock-registered making key url (lookup key m) m n pool refl h

-- Two calls for one user and database get the same pool, whatever other goroutines do between the
-- locks of either call and between the calls.
pub get_or_create_pool-shared :
    (first second : Making) (key : PoolKey) (url url' : Text) (m n m' n' : Pools) (p q : ConnPool)
    → get_or_create_pool first key url m ≡ (ok p, n)
    → Reach n m'
    → get_or_create_pool second key url' m' ≡ (ok q, n')
    → p ≡ q
unfolding get_or_create_pool
get_or_create_pool-shared first second key url url' m n m' n' p q h r h' =
    let found = Reach-Extends r key p (get_or_create_pool-registered first key url m n p h) in
    ground (arith, found)
