-- ===== src/Roles/Mapping.antt =====
-- Which account `MapRoleToServiceAccount` answers with.
use gprxy.Common.{
  if◌then◌else◌, ◌==◌, ℕ, ◌≡◌, ◌≢◌, refl, ◌↔◌, ◌⊎◌, inl, inr, Option, none, some, List, [], ◌∷◌,
  arith, Text, Text_eq, is_empty-ne, text_eq_iff, All, lookup, lookup-insert, lookup-All,
  NotCapital, Option-cases, ok, err, default_role_missing,
}
use gprxy.Roles.{
  ServiceAccount, RoleMapper, normalized, add_role_mapping, handle_no_roles, first_match,
  or_default, map_role, new_role_mapper,
}
use gprxy.Roles.Loading.{IsUsable, new_role_mapper-eq-ok, new_role_mapper-IsUsable}

module _ (wide : ℕ → ℕ) (rm : RoleMapper) where
  abbrev pub account_for : Text → Option ServiceAccount
  account_for role = lookup (normalized wide role) rm.role_to_account

  -- The account of the first role in the list that has one.
  pub data FirstMapped (a : ServiceAccount) : List Text → Type 0 where
    here :
        {role : Text} {roles : List Text} → account_for role ≡ some a → FirstMapped a (role ∷ roles)
    later :
        {role : Text} {roles : List Text}
        → account_for role ≡ none
        → FirstMapped a roles
        → FirstMapped a (role ∷ roles)

  first_match-FirstMapped :
      (roles : List Text) (a : ServiceAccount)
      → first_match wide rm roles ≡ some a
      → FirstMapped a roles
  unfolding first_match
  first_match-FirstMapped [] a h = cc
  first_match-FirstMapped (role ∷ roles) a h = elim (Option-cases (account_for role)) [
    | inl e ↦ later e (first_match-FirstMapped roles a (ground arith))
    | inr (b, e) ↦ here (ground arith)
  ]

  FirstMapped-first_match :
      {a : ServiceAccount} {roles : List Text}
      → FirstMapped a roles
      → first_match wide rm roles ≡ some a
  unfolding first_match
  FirstMapped-first_match (here e) = ground arith
  FirstMapped-first_match (later e f) = ground (arith, FirstMapped-first_match f)

  first_match-none_iff :
      (roles : List Text)
      → (first_match wide rm roles ≡ none) ↔ All (λ role. account_for role ≡ none) roles
  unfolding first_match
  first_match-none_iff [] = ground arith
  first_match-none_iff (role ∷ roles) = ground (arith, first_match-none_iff roles)

  map_role_lem :
      (roles : List Text) → map_role wide rm roles ≡ or_default wide rm (first_match wide rm roles)
  unfolding map_role
  map_role_lem [] = refl
  map_role_lem (role ∷ roles) = refl

  abbrev pub DefaultsTo : ServiceAccount → Type 0
  DefaultsTo a = (rm.default_role ≢ []) × (lookup rm.default_role rm.role_to_account ≡ some a)

  -- The account of the first role that has one, or that of the default role if no role has one.
  abbrev pub Answers : List Text → ServiceAccount → Type 0
  Answers roles a =
      FirstMapped a roles ⊎ (All (λ role. account_for role ≡ none) roles × (DefaultsTo a))

  handle_no_roles-eq-ok_iff : (a : ServiceAccount) → (handle_no_roles rm ≡ ok a) ↔ DefaultsTo a
  unfolding handle_no_roles
  handle_no_roles-eq-ok_iff a = grind arith

  -- The answer is an account exactly when it is the account of the first role that has one, or no
  -- role of the list has one and it is the account of the default role.
  pub map_role-eq-ok_iff :
      (roles : List Text) (a : ServiceAccount) → (map_role wide rm roles ≡ ok a) ↔ Answers roles a
  map_role-eq-ok_iff roles a =
      (λ h. forward (rw (map_role_lem roles) at h), λ h. rw (map_role_lem roles) (backward h))
    where
      forward : or_default wide rm (first_match wide rm roles) ≡ ok a → Answers roles a
      forward h = elim (Option-cases (first_match wide rm roles)) [
        | inl e ↦
            inr ((first_match-none_iff roles).0 e, (handle_no_roles-eq-ok_iff a).0 (ground arith))
        | inr (b, e) ↦ inl (first_match-FirstMapped roles a (ground arith))
      ]

      backward : Answers roles a → or_default wide rm (first_match wide rm roles) ≡ ok a
      backward (inl f) = rw (FirstMapped-first_match f)
      backward (inr (unmapped, d)) =
          rw ((first_match-none_iff roles).1 unmapped) ((handle_no_roles-eq-ok_iff a).1 d)

-- After `AddRoleMapping(role, u, p)` a user whose first role is that role, up to case and
-- surrounding space, is mapped to u and p. For any other first role that had an account, the answer
-- is what it was.
pub map_role-add_role_mapping :
    (wide : ℕ → ℕ) (rm : RoleMapper) (role u p r : Text) (roles : List Text) (a : ServiceAccount)
    → account_for wide rm r ≡ some a
    → map_role wide (add_role_mapping wide role u p rm) (r ∷ roles) ≡ (
        if normalized wide role == normalized wide r
        then ok (record { username = u; password = p; role = normalized wide role })
        else map_role wide rm (r ∷ roles))
unfolding add_role_mapping map_role first_match
map_role-add_role_mapping wide rm role u p r roles a h =
    let account : ServiceAccount = record {
      username = u;
      password = p;
      role = normalized wide role;
    } in
    ground (
      arith,
      text_eq_iff (normalized wide role) (normalized wide r),
      lookup-insert (normalized wide role) (normalized wide r) account rm.role_to_account,
    )

-- A default role that holds an ASCII capital letter never answers: `NewRoleMapper` files the
-- accounts in lower case, and DEFAULT_ROLE is looked up as it is written.
pub handle_no_roles-capital :
    (wide : ℕ → ℕ)
    → ((c : ℕ) → NotCapital (wide c))
    → (envs : List Text) (default : Text) (rm : RoleMapper)
    → new_role_mapper wide envs default ≡ ok rm
    → default ≢ []
    → ¬ All NotCapital default
    → handle_no_roles rm ≡ err (default_role_missing default)
unfolding handle_no_roles
handle_no_roles-capital wide lowers envs default rm made named capital =
    elim (Option-cases (lookup rm.default_role rm.role_to_account)) [
      | inl e ↦ ground (arith, same, e, is_empty-ne default named)
      | inr (a, e) ↦ absurd (
          capital
            (rw same at (lookup-All IsUsable rm.default_role rm.role_to_account usable e).lowered))
    ]
  where
    same : rm.default_role ≡ default
    same = (new_role_mapper-eq-ok wide envs default rm made).1

    usable : All IsUsable rm.role_to_account
    usable = new_role_mapper-IsUsable wide lowers envs default rm made
