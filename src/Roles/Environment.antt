-- ===== src/Roles/Environment.antt =====
-- How a list of environment variables determines a mapper.
use gprxy.Common.{
  ℕ, ◌≡◌, ◌≢◌, refl, ◌↔◌, ◌∙◌, sym, true, Option, none, some, List, [], ◌∷◌, ◌++◌, arith, Text,
  Text_eq, ◌==◌, text_eq_iff, is_empty-ne, All, All-append, Map, lookup, lookup-insert, to_lower,
  has_prefix, has_prefix-append, split_two, split_two-append, trim_space, trim_prefix-append,
  NoChar, ok, err, no_valid_mappings, if◌then◌else◌,
}
use gprxy.Roles.{
  ServiceAccount, RoleMapper, mapping_prefix, account_of, parse_mapping, load_one, load_loop,
  new_role_mapper, normalized, first_match, map_role,
}
use gprxy.Roles.Loading.{new_role_mapper-eq-ok}

abbrev pub or_else {ℓ} : {A : Type ℓ} → Option A → Option A → Option A
or_else none o = o
or_else (some a) o = some a

-- The variable ROLE_MAPPING_name=username:password, as `os.Environ` gives it.
abbrev pub entry : Text → Text → Text → Text
entry name username password = (mapping_prefix ++ name) ++ b'=' ∷ (username ++ b':' ∷ password)

abbrev named : Text → Option ServiceAccount → Option ServiceAccount
named role none = none
named role (some a) = if a.role == role then some a else none

module _ (wide : ℕ → ℕ) where
  -- The last variable that maps the role.
  pub last_mapping : List Text → Text → Option ServiceAccount
  last_mapping [] role = none
  last_mapping (env ∷ envs) role =
      or_else (last_mapping envs role) (named role (parse_mapping wide env))

  lookup-load_one :
      (o : Option ServiceAccount) (acc : Map Text ServiceAccount × ℕ) (role : Text)
      → lookup role (load_one o acc).0 ≡ or_else (named role o) (lookup role acc.0)
  lookup-load_one none (m, n) role = refl
  lookup-load_one (some a) (m, n) role = rw (lookup-insert a.role role a m) (ground arith)

  or_else_assoc :
      (a b c : Option ServiceAccount) → or_else a (or_else b c) ≡ or_else (or_else a b) c
  or_else_assoc none b c = refl
  or_else_assoc (some a) b c = refl

  lookup-load_loop :
      (envs : List Text) (acc : Map Text ServiceAccount × ℕ) (role : Text)
      → lookup role (load_loop wide envs acc).0
        ≡ or_else (last_mapping envs role) (lookup role acc.0)
  unfolding load_loop last_mapping
  lookup-load_loop [] acc role = refl
  lookup-load_loop (env ∷ envs) acc role =
      rw
        (
          lookup-load_loop envs (load_one (parse_mapping wide env) acc) role,
          lookup-load_one (parse_mapping wide env) acc role,
        )
        (or_else_assoc (last_mapping envs role) _ _)

  or_else-none : (o : Option ServiceAccount) → or_else o none ≡ o
  or_else-none none = refl
  or_else-none (some a) = refl

  -- In a mapper that `NewRoleMapper` returns, a role has the account of the last environment
  -- variable that maps it, and no account if none does.
  pub lookup-new_role_mapper :
      (envs : List Text) (default : Text) (rm : RoleMapper) (role : Text)
      → new_role_mapper wide envs default ≡ ok rm
      → lookup role rm.role_to_account ≡ last_mapping envs role
  unfolding lookup
  lookup-new_role_mapper envs default rm role h =
      rw ((new_role_mapper-eq-ok wide envs default rm h).0, lookup-load_loop envs ([], 0) role)
        (or_else-none _)

  load_loop-count :
      (envs : List Text) (acc : Map Text ServiceAccount × ℕ)
      → ((load_loop wide envs acc).1 ≡ 0)
        ↔ ((acc.1 ≡ 0) × All (λ env. parse_mapping wide env ≡ none) envs)
  unfolding load_loop
  load_loop-count [] acc = ground arith
  load_loop-count (env ∷ envs) (m, n) =
      ground (arith, load_loop-count envs (load_one (parse_mapping wide env) (m, n)))

  -- `NewRoleMapper` fails for want of a valid mapping exactly when no variable is one.
  pub new_role_mapper-eq-err_iff :
      (envs : List Text) (default : Text)
      → (new_role_mapper wide envs default ≡ err no_valid_mappings)
        ↔ All (λ env. parse_mapping wide env ≡ none) envs
  unfolding new_role_mapper
  new_role_mapper-eq-err_iff envs default = ground (arith, load_loop-count envs ([], 0))

  last_mapping-append :
      (envs : List Text) (env role : Text)
      → last_mapping (envs ++ env ∷ []) role
        ≡ or_else (named role (parse_mapping wide env)) (last_mapping envs role)
  unfolding last_mapping
  last_mapping-append [] env role = ground arith
  last_mapping-append (e ∷ envs) env role =
      rw (last_mapping-append envs env role)
        (sym (or_else_assoc (named role (parse_mapping wide env)) _ _))

  module _ (name username password : Text) (plain_name : NoChar b'=' name)
      (plain_user : NoChar b':' username) (trim_user : trim_space username ≡ username)
      (trim_pass : trim_space password ≡ password) (some_user : username ≢ [])
      (some_pass : password ≢ []) where
    entry_prefix : has_prefix (entry name username password) mapping_prefix ≡ true
    entry_prefix = has_prefix-append mapping_prefix (name ++ b'=' ∷ (username ++ b':' ∷ password))

    entry_parts :
        split_two (entry name username password) b'='
        ≡ some (mapping_prefix ++ name, username ++ b':' ∷ password)
    entry_parts =
        split_two-append (mapping_prefix ++ name) (username ++ b':' ∷ password) b'='
          (All-append (λ c. c ≢ b'=') mapping_prefix name (omega arith) plain_name)

    kept :
        account_of (to_lower wide name) username password
        ≡ some (record { username = username; password = password; role = to_lower wide name })
    kept = rw (is_empty-ne username some_user, is_empty-ne password some_pass)

    parse_mapping-entry :
        parse_mapping wide (entry name username password)
        ≡ some (record { username = username; password = password; role = to_lower wide name })
    unfolding parse_mapping
    parse_mapping-entry =
        rw
          (
            entry_prefix,
            entry_parts,
            trim_prefix-append mapping_prefix name,
            split_two-append username password b':' plain_user,
            trim_user,
            trim_pass,
          )
          kept

-- A user whose first role with an account is `r` logs in under the account that the last
-- environment variable gives for it: ROLE_MAPPING_name=username:password, where `r` is that name up
-- to case and surrounding space, the name holds no '=', the username no ':', and neither
-- credential is empty or has surrounding space.
pub map_role-last_entry :
    (wide : ℕ → ℕ) (envs : List Text) (default : Text) (rm : RoleMapper)
    (name username password r : Text) (roles : List Text)
    → new_role_mapper wide (envs ++ entry name username password ∷ []) default ≡ ok rm
    → NoChar b'=' name
    → NoChar b':' username
    → trim_space username ≡ username
    → trim_space password ≡ password
    → username ≢ []
    → password ≢ []
    → normalized wide r ≡ to_lower wide name
    → map_role wide rm (r ∷ roles)
      ≡ ok (record { username = username; password = password; role = to_lower wide name })
unfolding map_role first_match
map_role-last_entry wide envs default rm name username password r roles made pn pu tu tp su sp
      same =
    ground (arith, found, parsed, text_eq_iff (to_lower wide name) (to_lower wide name))
  where
    parsed :
        parse_mapping wide (entry name username password)
        ≡ some (record { username = username; password = password; role = to_lower wide name })
    parsed = parse_mapping-entry wide name username password pn pu tu tp su sp

    found :
        lookup (normalized wide r) rm.role_to_account
        ≡ or_else
            (named (to_lower wide name) (parse_mapping wide (entry name username password)))
            (last_mapping wide envs (to_lower wide name))
    found = rw same (
        lookup-new_role_mapper wide (envs ++ entry name username password ∷ []) default rm
          (to_lower wide name) made
        ∙ last_mapping-append wide envs (entry name username password) (to_lower wide name))
