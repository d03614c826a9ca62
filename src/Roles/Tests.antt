-- ===== src/Roles/Tests.antt =====
-- internal/auth/roles.go on two environments, and the theorems of the role mapper at work.
use gprxy.Common.{
  ℕ, ◌≡◌, ◌↔◌, refl, List, [], ◌∷◌, inr, arith, Text, codes, Map, lookup, insert, has_prefix,
  trim_prefix, split_two, trim_left, trim_right, is_space, lower_char, text_eq, Text_eq, ok, err,
  default_role_missing, no_valid_mappings, none, All, NotCapital, trim_space,
}
use gprxy.Roles.{
  ServiceAccount, RoleMapper, parse_mapping, load_loop, load_from_environment, new_role_mapper,
  add_role_mapping, first_match, handle_no_roles, map_role,
}
use gprxy.Roles.Loading.{IsUsable, new_role_mapper-IsUsable}
use gprxy.Roles.Environment.{last_mapping, lookup-new_role_mapper, new_role_mapper-eq-err_iff}
use gprxy.Roles.Mapping.{Answers, map_role-eq-ok_iff, handle_no_roles-capital}

-- What `unicode.ToLower` does above ASCII is left alone here: every such character becomes 233.
abbrev wide : ℕ → ℕ
wide c = 233

roles : Unit {0}
unfolding map_role first_match add_role_mapping handle_no_roles new_role_mapper
    load_from_environment load_loop parse_mapping has_prefix trim_prefix split_two trim_space
    trim_left trim_right is_space lower_char text_eq lookup insert
roles = tt

abbrev account : Text → Text → Text → ServiceAccount
account role username password = record { username = username; password = password; role = role }

abbrev environment : List Text
environment =
    codes "PATH=/bin"
    ∷ codes "ROLE_MAPPING_Admin=svc_a:one"
    ∷ codes "ROLE_MAPPING_reader=svc_r:s:x"
    ∷ codes "ROLE_MAPPING_ADMIN= svc_b :two"
    ∷ []

abbrev table : Map Text ServiceAccount
table =
    (codes "admin", account (codes "admin") (codes "svc_b") (codes "two"))
    ∷ (codes "reader", account (codes "reader") (codes "svc_r") (codes "s:x"))
    ∷ []

abbrev mapper : RoleMapper
mapper = record { role_to_account = table; default_role = codes "Reader" }

new_role_mapper_test : new_role_mapper wide environment (codes "Reader") ≡ ok mapper
unfolding roles
new_role_mapper_test = refl

map_role_tests :
    (map_role wide mapper (codes "other" ∷ codes " ADMIN " ∷ [])
      ≡ ok (account (codes "admin") (codes "svc_b") (codes "two")))
    × (map_role wide mapper [] ≡ err (default_role_missing (codes "Reader")))
unfolding roles
map_role_tests = (refl, refl)

lowers : (c : ℕ) → NotCapital (wide c)
lowers c = inr (omega arith)

new_role_mapper-IsUsable_example : All IsUsable table
new_role_mapper-IsUsable_example =
    new_role_mapper-IsUsable wide lowers environment (codes "Reader") mapper new_role_mapper_test

lookup-new_role_mapper_example :
    lookup (codes "admin") table ≡ last_mapping wide environment (codes "admin")
lookup-new_role_mapper_example =
    lookup-new_role_mapper wide environment (codes "Reader") mapper (codes "admin")
      new_role_mapper_test

abbrev widened : RoleMapper
widened = record {
  role_to_account =
      (codes "admin", account (codes "admin") (codes "svc_c") (codes "k:3"))
      ∷ (codes "reader", account (codes "reader") (codes "svc_r") (codes "s:x"))
      ∷ [];
  default_role = codes "Reader";
}

map_role-eq-ok_iff_example :
    (map_role wide mapper (codes "reader" ∷ [])
      ≡ ok (account (codes "reader") (codes "svc_r") (codes "s:x")))
    ↔ Answers wide mapper
        (codes "reader" ∷ [])
        (account (codes "reader") (codes "svc_r") (codes "s:x"))
map_role-eq-ok_iff_example =
    map_role-eq-ok_iff wide mapper (codes "reader" ∷ [])
      (account (codes "reader") (codes "svc_r") (codes "s:x"))

new_role_mapper-eq-err_iff_example :
    (new_role_mapper wide (codes "PATH=/bin" ∷ []) [] ≡ err no_valid_mappings)
    ↔ All (λ env. parse_mapping wide env ≡ none) (codes "PATH=/bin" ∷ [])
new_role_mapper-eq-err_iff_example = new_role_mapper-eq-err_iff wide (codes "PATH=/bin" ∷ []) []

handle_no_roles-capital_example :
    handle_no_roles mapper ≡ err (default_role_missing (codes "Reader"))
handle_no_roles-capital_example =
    handle_no_roles-capital wide lowers environment (codes "Reader") mapper new_role_mapper_test
      (ground arith) (ground arith)
