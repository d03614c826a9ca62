-- ===== src/Pool/Tests.antt =====
-- Two connections of one user and database, and the theorems on them.
use gprxy.Common.{
  Extern, ℕ, ◌≡◌, refl, true, some, [], ◌∷◌, Text, codes, ok, err, ping_failed, lookup, insert,
  text_eq,
}
use gprxy.Pool.{
  PoolKey, PoolKey_eq, Pools, Making, new_pool, get_or_create_pool, Manager, Acquiring,
  acquire_connection,
}
use gprxy.Pool.Sharing.{Reach, get_or_create_pool-shared}

pools : Unit {0}
unfolding acquire_connection get_or_create_pool lookup insert text_eq
pools = tt

abbrev key : PoolKey
key = record { user = codes "ann"; database = codes "app" }

abbrev url : Text
url = codes "postgres://svc:pw@db:5432/app"

abbrev making : ℕ → Making
making id = record { others = λ m. m; parses = true; made = some id }

abbrev made : Pools
made = (key, new_pool 7 url) ∷ []

get_or_create_pool_tests :
    (get_or_create_pool (making 7) key url [] ≡ (ok (new_pool 7 url), made))
    × (get_or_create_pool (making 8) key url made ≡ (ok (new_pool 7 url), made))
unfolding pools
get_or_create_pool_tests = (refl, refl)

get_or_create_pool-shared_example : new_pool 7 url ≡ new_pool 7 url
get_or_create_pool-shared_example =
    get_or_create_pool-shared (making 7) (making 8) key url url [] made made made (new_pool 7 url)
      (new_pool 7 url) (get_or_create_pool_tests.0) Reach.here (get_or_create_pool_tests.1)

abbrev silent : Acquiring ℕ
silent = record {
  making = making 7;
  acquired = λ pool n. Extern.returns 3;
  ping = λ c. Extern.fails;
}

abbrev empty : Manager
empty = record { pools = []; leased = 0 }

acquire_connection_test :
    acquire_connection silent (codes "ann") (codes "app") url empty
    ≡ (err ping_failed, record { pools = made; leased = 0 })
unfolding pools
acquire_connection_test = refl
