-- ===== src/Roles.antt =====
-- internal/auth/roles.go: the role mapper. Log lines are left out; the mutex makes each method
-- one step. `wide` is `unicode.ToLower` above ASCII.
pub mod Loading
pub mod Mapping
pub mod Environment
mod Tests
use gprxy.Common.{
  ℕ, suc, Bool, true, false, ◌||◌, Option, none, some, List, [], ◌∷◌, map, Text, codes, is_empty,
  has_prefix, trim_prefix, split_two, trim_space, to_lower, Text_eq, nat_eq, if◌then◌else◌, Map,
  lookup, insert, Outcome, ok, err, no_valid_mappings, no_mappings, no_default_role,
  default_role_missing,
}

pub record ServiceAccount : Type 0 where
  pub username : Text
  pub password : Text
  pub role : Text

pub record RoleMapper : Type 0 where
  pub role_to_account : Map Text ServiceAccount
  pub default_role : Text

abbrev pub mapping_prefix : Text
mapping_prefix = codes "ROLE_MAPPING_"

-- The loop's body after the prefix test: what one variable NAME=value maps, if it maps anything.
abbrev pub account_of : Text → Text → Text → Option ServiceAccount
account_of role username password =
    if is_empty username || is_empty password
    then none
    else some (record { username = username; password = password; role = role })

abbrev pub credentials_of : Text → Option (Text × Text) → Option ServiceAccount
credentials_of role none = none
credentials_of role (some (username, password)) =
    account_of role (trim_space username) (trim_space password)

-- The loop, with the map and the number of mappings loaded.
abbrev pub load_one :
    Option ServiceAccount → Map Text ServiceAccount × ℕ → Map Text ServiceAccount × ℕ
load_one none (m, loaded) = (m, loaded)
load_one (some a) (m, loaded) = (insert a.role a m, suc loaded)

abbrev pub checked : Outcome (Unit {0}) × RoleMapper → Outcome RoleMapper
checked (ok _, rm) = elim rm.role_to_account [ [] ↦ err no_mappings | _ ↦ ok rm ]
checked (err e, rm) = err e
checked (Outcome.panics, rm) = Outcome.panics
checked (Outcome.blocks, rm) = Outcome.blocks

module _ (wide : ℕ → ℕ) where
  abbrev pub variable_of : Option (Text × Text) → Option ServiceAccount
  variable_of none = none
  variable_of (some (name, value)) =
      credentials_of (to_lower wide (trim_prefix name mapping_prefix)) (split_two value b':')

  unfoldable pub parse_mapping : Text → Option ServiceAccount
  parse_mapping env =
      if has_prefix env mapping_prefix then variable_of (split_two env b'=') else none

  unfoldable pub load_loop : List Text → Map Text ServiceAccount × ℕ → Map Text ServiceAccount × ℕ
  load_loop [] acc = acc
  load_loop (env ∷ envs) acc = load_loop envs (load_one (parse_mapping env) acc)

  unfoldable pub load_from_environment : List Text → RoleMapper → Outcome (Unit {0}) × RoleMapper
  unfolding load_loop
  load_from_environment envs rm =
      let (m, loaded) = load_loop envs (rm.role_to_account, 0) in
      let rm' : RoleMapper = record rm { role_to_account = m } in
      if nat_eq loaded 0 then (err no_valid_mappings, rm') else (ok tt, rm')

  -- `default` is the variable DEFAULT_ROLE.
  unfoldable pub new_role_mapper : List Text → Text → Outcome RoleMapper
  unfolding load_from_environment
  new_role_mapper envs default =
      checked (load_from_environment envs (record { role_to_account = []; default_role = default }))

  abbrev pub normalized : Text → Text
  normalized role = to_lower wide (trim_space role)

  unfoldable pub add_role_mapping : Text → Text → Text → RoleMapper → RoleMapper
  add_role_mapping role username password rm =
      let account : ServiceAccount = record {
        username = username;
        password = password;
        role = normalized role;
      } in
      record rm { role_to_account = insert (normalized role) account rm.role_to_account }

abbrev pub found_default : Text → Option ServiceAccount → Outcome ServiceAccount
found_default role none = err (default_role_missing role)
found_default role (some a) = ok a

unfoldable pub handle_no_roles : RoleMapper → Outcome ServiceAccount
unfolding lookup
handle_no_roles rm =
    if is_empty rm.default_role
    then err no_default_role
    else found_default rm.default_role (lookup rm.default_role rm.role_to_account)

module _ (wide : ℕ → ℕ) (rm : RoleMapper) where
  -- The loop over the roles, first match wins.
  unfoldable pub first_match : List Text → Option ServiceAccount
  first_match [] = none
  first_match (role ∷ roles) =
      let rest = first_match roles in
      elim (lookup (normalized wide role) rm.role_to_account) [ some a ↦ some a | none ↦ rest ]

  abbrev pub or_default : Option ServiceAccount → Outcome ServiceAccount
  or_default none = handle_no_roles rm
  or_default (some a) = ok a

  unfoldable pub map_role : List Text → Outcome ServiceAccount
  unfolding first_match
  map_role [] = handle_no_roles rm
  map_role (role ∷ roles) = or_default (first_match (role ∷ roles))

-- The keys, in the order of the association list: Go's order is random.
unfoldable pub get_all_roles : RoleMapper → List Text
get_all_roles rm = map (λ (b : Text × ServiceAccount). b.0) rm.role_to_account
