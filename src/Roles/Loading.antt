-- ===== src/Roles/Loading.antt =====
-- What `loadFromEnvironment` puts into the map, whatever the environment.
use mathlib.Core.Path.{subst}
use gprxy.Common.{
  ℕ, ◌≡◌, ◌≢◌, refl, inl, inr, Option, none, some, List, [], ◌∷◌, arith, Text, Text_eq, All,
  insert-All, Map, to_lower, NotCapital, to_lower-NotCapital, Bool-cases, has_prefix, split_two,
  trim_space, trim_prefix, ok,
}
use gprxy.Roles.{
  ServiceAccount, RoleMapper, mapping_prefix, account_of, credentials_of, variable_of,
  parse_mapping, load_one, load_loop, new_role_mapper,
}

-- An entry is filed under its own role, has both credentials, and its key is in lower case.
pub record IsUsable (entry : Text × ServiceAccount) : Type 0 where
  pub filed : entry.1.role ≡ entry.0
  pub named : entry.1.username ≢ []
  pub secret : entry.1.password ≢ []
  pub lowered : All NotCapital entry.0

-- What a mapper that was made holds: the result of the loop.
pub new_role_mapper-eq-ok :
    (wide : ℕ → ℕ) (envs : List Text) (default : Text) (rm : RoleMapper)
    → new_role_mapper wide envs default ≡ ok rm
    → (rm.role_to_account ≡ (load_loop wide envs ([], 0)).0) × (rm.default_role ≡ default)
unfolding new_role_mapper
new_role_mapper-eq-ok wide envs default rm h = ground arith

module _ (wide : ℕ → ℕ) (lowers : (c : ℕ) → NotCapital (wide c)) where
  account_of-IsUsable :
      (name username password : Text) (a : ServiceAccount)
      → account_of (to_lower wide name) username password ≡ some a
      → IsUsable (a.role, a)
  account_of-IsUsable name [] password a h = cc
  account_of-IsUsable name (c ∷ u) [] a h = cc
  account_of-IsUsable name (c ∷ u) (d ∷ p) a h =
      let e : record { username = c ∷ u; password = d ∷ p; role = to_lower wide name } ≡ a = (cc) in
      subst (λ (b : ServiceAccount). IsUsable (b.role, b)) e
        (record {
          filed = refl;
          named = ground arith;
          secret = ground arith;
          lowered = to_lower-NotCapital wide lowers name;
        })

  credentials_of-IsUsable :
      (name : Text) (o : Option (Text × Text)) (a : ServiceAccount)
      → credentials_of (to_lower wide name) o ≡ some a
      → IsUsable (a.role, a)
  credentials_of-IsUsable name none a h = cc
  credentials_of-IsUsable name (some (u, p)) a h =
      account_of-IsUsable name (trim_space u) (trim_space p) a h

  variable_of-IsUsable :
      (o : Option (Text × Text)) (a : ServiceAccount)
      → variable_of wide o ≡ some a
      → IsUsable (a.role, a)
  variable_of-IsUsable none a h = cc
  variable_of-IsUsable (some (n, v)) a h =
      credentials_of-IsUsable (trim_prefix n mapping_prefix) (split_two v b':') a h

  pub parse_mapping-IsUsable :
      (env : Text) (a : ServiceAccount) → parse_mapping wide env ≡ some a → IsUsable (a.role, a)
  unfolding parse_mapping
  parse_mapping-IsUsable env a h = elim (Bool-cases (has_prefix env mapping_prefix)) [
    | inl e ↦ variable_of-IsUsable (split_two env b'=') a (ground arith)
    | inr e ↦ absurd (ground arith)
  ]

  load_one-IsUsable :
      (o : Option ServiceAccount) (acc : Map Text ServiceAccount × ℕ)
      → ((a : ServiceAccount) → o ≡ some a → IsUsable (a.role, a))
      → All IsUsable acc.0
      → All IsUsable (load_one o acc).0
  load_one-IsUsable none (m, n) p h = h
  load_one-IsUsable (some a) (m, n) p h = insert-All IsUsable a.role a m (p a refl) h

  load_loop-IsUsable :
      (envs : List Text) (acc : Map Text ServiceAccount × ℕ)
      → All IsUsable acc.0
      → All IsUsable (load_loop wide envs acc).0
  unfolding load_loop
  load_loop-IsUsable [] acc h = h
  load_loop-IsUsable (env ∷ envs) acc h =
      load_loop-IsUsable envs (load_one (parse_mapping wide env) acc)
        (load_one-IsUsable (parse_mapping wide env) acc (parse_mapping-IsUsable env) h)

  -- A mapper that `NewRoleMapper` returns holds usable accounts only: each is filed under its own
  -- role, in lower case, and has a username and a password that are not empty. `unicode.ToLower`
  -- is assumed never to yield an ASCII capital.
  pub new_role_mapper-IsUsable :
      (envs : List Text) (default : Text) (rm : RoleMapper)
      → new_role_mapper wide envs default ≡ ok rm
      → All IsUsable rm.role_to_account
  new_role_mapper-IsUsable envs default rm h =
      rw (new_role_mapper-eq-ok wide envs default rm h).0 (load_loop-IsUsable envs ([], 0) tt)
