-- ===== src/AccessControl/Decisions.antt =====
-- What `check_permission` of core/access_control.py decides, against a description of who may act.
use bt_api_security.Prelude.{
  String, ℕ, ◌≤◌, ◌≡◌, ◌≢◌, ◌↔◌, ◌⊎◌, inl, inr, true, false, Option, some, List, [], ◌∷◌, arith,
  eq_iff, Bool-cases, Option-cases, ◌==◌, nat_Eq, string_Eq, contains, ok, LocalTime,
}
use bt_api_security.Dict.{Dict, lookup, has_key}
use bt_api_security.AccessControl.Types.{
  PermissionLevel, Resource, trading_accounts, resource_Eq, permission_Eq, Role, User,
  AccessContext,
}
use bt_api_security.AccessControl.Roles.{has_permission}
use bt_api_security.AccessControl.Manager.{
  Manager, is_locked, restrict, check_abac_rules, some_role_grants, decide_for, check_permission,
}

-- Business hours, an owned trading account: what `_check_abac_rules` grants.
pub record OwnsInHours (local_time : ℕ → LocalTime) (user : User) (resource : Resource)
    (c : AccessContext) : Type 0 where
  pub trading : resource ≡ trading_accounts
  pub owner : has_key "account_owner" user.attributes ≡ true
  pub opened : 9 ≤ (local_time c.timestamp).hour
  pub not_closed : (local_time c.timestamp).hour ≤ 17

module _ (local_time : ℕ → LocalTime) (user : User) (resource : Resource) (level : PermissionLevel)
    (c : AccessContext) where
  restrict-ne-true : restrict local_time user resource level c ≢ ok true
  unfolding restrict
  restrict-ne-true = λ h. ground arith

  -- The attribute rules say yes exactly for a trading account, where the user has an owner
  -- attribute of any value and the context's local hour is from 9 to 17.
  pub check_abac_rules_iff :
      (check_abac_rules local_time user resource level c ≡ ok true)
      ↔ OwnsInHours local_time user resource c
  unfolding check_abac_rules
  check_abac_rules_iff = (
    λ h. record {
      trading = ground (arith, is_trading, restrict-ne-true);
      owner = ground (arith, restrict-ne-true);
      opened = ground (arith, restrict-ne-true);
      not_closed = ground (arith, restrict-ne-true);
    },
    λ o. ground (arith, is_trading),
  )
    where
      is_trading : (resource == trading_accounts ≡ true) ↔ (resource ≡ trading_accounts)
      is_trading = resource_Eq.test_iff resource trading_accounts

-- One of the user's roles exists and has the permission.
abbrev pub RoleGrants : Dict Role → List String → Resource → String → PermissionLevel → Type 0
RoleGrants roles names resource action level =
    (name : String) × (role : Role) × (contains name names ≡ true)
    × (lookup name roles ≡ some role)
    × (has_permission role resource action level ≡ true)

module _ (roles : Dict Role) (resource : Resource) (action : String) (level : PermissionLevel) where
  some_role_grants_sound :
      (names : List String)
      → some_role_grants roles names resource action level ≡ true
      → RoleGrants roles names resource action level
  unfolding some_role_grants
  some_role_grants_sound [] h = cc
  some_role_grants_sound (n ∷ names) h = elim (Option-cases (lookup n roles)) [
    | inl missing ↦
        let (name, role, held, found, grants) = some_role_grants_sound names (ground arith) in
        (name, role, ground arith, found, grants)
    | inr (r, e) ↦ elim (Bool-cases (has_permission r resource action level)) [
      | inl t ↦ (n, r, ground (arith, eq_iff n n), e, t)
      | inr f ↦
          let (name, role, held, found, grants) = some_role_grants_sound names (ground arith) in
          (name, role, ground arith, found, grants)
    ]
  ]

  some_role_grants_complete :
      (names : List String)
      → RoleGrants roles names resource action level
      → some_role_grants roles names resource action level ≡ true
  unfolding some_role_grants
  some_role_grants_complete [] (name, role, held, found, grants) = cc
  some_role_grants_complete (n ∷ names) (name, role, held, found, grants) =
      elim (Bool-cases (n == name)) [
        | inl e ↦ ground (arith, eq_iff n name)
        | inr ne ↦
            ground
              (arith, some_role_grants_complete names (name, role, ground arith, found, grants))
      ]

-- The description of `check_permission`'s positive answers.
pub record IsPermitted (local_time : ℕ → LocalTime) (now : ℕ) (m : Manager) (user_id : String)
    (resource : Resource) (action : String) (level : PermissionLevel)
    (context : Option AccessContext) : Type 0 where
  pub user : User
  pub known : lookup user_id m.users ≡ some user
  pub active : user.is_active ≡ true
  pub unlocked : is_locked now user ≡ false
  pub granted :
      RoleGrants m.roles user.roles resource action level
      ⊎ ((c : AccessContext) × (context ≡ some c) × OwnsInHours local_time user resource c)

module _ (local_time : ℕ → LocalTime) (now : ℕ) (m : Manager) (user_id : String)
    (resource : Resource) (action : String) (level : PermissionLevel)
    (context : Option AccessContext) where
  decide_granted :
      (u : User)
      → decide_for local_time now m.roles u resource action level context ≡ ok true
      → RoleGrants m.roles u.roles resource action level
        ⊎ ((c : AccessContext) × (context ≡ some c) × OwnsInHours local_time u resource c)
  unfolding decide_for
  decide_granted u h = elim (Bool-cases (some_role_grants m.roles u.roles resource action level)) [
    | inl yes' ↦ inl (some_role_grants_sound m.roles resource action level u.roles yes')
    | inr no' ↦ elim (Option-cases context) [
      | inl absent ↦ absurd (ground arith)
      | inr (c, e) ↦
          inr (c, e, (check_abac_rules_iff local_time u resource level c).0 (ground arith))
    ]
  ]

  decide_complete :
      (p : IsPermitted local_time now m user_id resource action level context)
      → decide_for local_time now m.roles p.user resource action level context ≡ ok true
  unfolding decide_for
  decide_complete p = elim p.granted [
    | inl r ↦ ground (arith, some_role_grants_complete m.roles resource action level p.user.roles r)
    | inr (c, e, o) ↦ ground (arith, (check_abac_rules_iff local_time p.user resource level c).1 o)
  ]

  decide_sound :
      (u : User)
      → lookup user_id m.users ≡ some u
      → decide_for local_time now m.roles u resource action level context ≡ ok true
      → IsPermitted local_time now m user_id resource action level context
  unfolding decide_for
  decide_sound u known h = record {
    user = u;
    known = known;
    active = ground arith;
    unlocked = ground arith;
    granted = decide_granted u h;
  }

  -- The answer is yes, and the manager unchanged, exactly for a known, active, unlocked user of whom
  -- one of these holds: a role grants the request; or the request is for trading accounts, comes
  -- with a context whose local hour is from 9 to 17, and the user has an attribute `account_owner`,
  -- of any value, since the code compares it with nothing.
  pub check_permission_iff :
      (check_permission local_time now user_id resource action level context m ≡ (ok true, m))
      ↔ IsPermitted local_time now m user_id resource action level context
  unfolding check_permission
  check_permission_iff = (
    λ h. elim (Option-cases (lookup user_id m.users)) [
      | inl unknown ↦ absurd (ground arith)
      | inr (u, known) ↦ decide_sound u known (ground arith)
    ],
    λ o. ground (arith, o.known, decide_complete o),
  )
