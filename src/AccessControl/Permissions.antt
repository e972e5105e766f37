-- ===== src/AccessControl/Permissions.antt =====
-- `Role.has_permission` of core/access_control.py: the order in which a set is iterated, and the
-- policy of the system roles.
use bt_api_security.Prelude.{
  String, ℕ, ◌≤◌, ◌<◌, ◌≡◌, refl, inl, inr, Bool, true, false, ◌||◌, List, [], ◌∷◌, arith, leb,
  leb→le, Bool-cases, ◌==◌, nat_Eq, string_Eq, length, any, select, remove_first, All, contains,
  contains_here, contains_there,
}
use bt_api_security.AccessControl.Types.{
  PermissionLevel, none_level, read_level, delete_level, admin_level, level_value, write_level,
  super_admin_level, Resource, exchange_config, resource_Eq, Resource-discrete, Permission,
  permission_Eq, PermissionLevel-discrete, Role,
}
use bt_api_security.AccessControl.Roles.{
  has_permission, covers, first_decides, super_admin, write_actions, read_actions,
}

-- A permission that covers the request is in the role, and its level suffices.
abbrev Suffices : PermissionLevel → Permission → Type 0
Suffices level p = level_value level ≤ level_value p.level

module _ (resource : Resource) (action : String) (level : PermissionLevel) where
  decided_here :
      (p : Permission) (ps : List Permission)
      → covers p resource action ≡ true
      → first_decides (p ∷ ps) resource action level ≡ true
      → leb (level_value level) (level_value p.level) ≡ true
  unfolding first_decides
  decided_here p ps here h = rw here at h

  decided_later :
      (p : Permission) (ps : List Permission)
      → covers p resource action ≡ false
      → first_decides (p ∷ ps) resource action level ≡ true
      → first_decides ps resource action level ≡ true
  unfolding first_decides
  decided_later p ps later h = rw later at h

  first_decides_sound :
      (ps : List Permission)
      → first_decides ps resource action level ≡ true
      → (p : Permission) × (contains p ps ≡ true)
        × (covers p resource action ≡ true)
        × Suffices level p
  unfolding first_decides
  first_decides_sound [] h = cc
  first_decides_sound (p ∷ ps) h = elim (Bool-cases (covers p resource action)) [
    | inl here ↦ (p, contains_here p ps, here, leb→le _ _ (decided_here p ps here h))
    | inr later ↦
        let (q, held, covering, enough) = first_decides_sound ps (decided_later p ps later h) in
        (q, contains_there q p ps held, covering, enough)
  ]

  -- Every permission that covers the request suffices.
  abbrev AllSuffice : List Permission → Type 0
  AllSuffice ps = All (λ p. covers p resource action ≡ true → Suffices level p) ps

  first_decides_complete :
      (ps : List Permission)
      → AllSuffice ps
      → any (λ p. covers p resource action) ps ≡ true
      → first_decides ps resource action level ≡ true
  unfolding first_decides
  first_decides_complete [] h e = cc
  first_decides_complete (p ∷ ps) h e = ground (arith, h.0, first_decides_complete ps h.1)

-- A yes of `has_permission` rests on a permission of the role that covers the request at a level
-- that suffices; and where every permission that covers it suffices, and there is one, the
-- answer is yes, in whatever order the set is iterated.
pub has_permission_sound_complete :
    (r : Role) (resource : Resource) (action : String) (level : PermissionLevel)
    → (has_permission r resource action level ≡ true
        → (p : Permission) × (contains p r.permissions ≡ true)
          × (covers p resource action ≡ true)
          × (level_value level ≤ level_value p.level))
      × (All
            (λ p. covers p resource action ≡ true → level_value level ≤ level_value p.level)
            r.permissions
          → any (λ p. covers p resource action) r.permissions ≡ true
          → has_permission r resource action level ≡ true)
unfolding has_permission
has_permission_sound_complete r resource action level = (
  first_decides_sound resource action level r.permissions,
  first_decides_complete resource action level r.permissions,
)

-- The same permissions, each as often, in an order of iteration.
abbrev pub IsOrderOf : List Permission → List Permission → Type 0
IsOrderOf order ps = (q : Permission → Bool) → length (select q order) ≡ length (select q ps)

-- The order in which `p` comes first.
abbrev to_front : Permission → List Permission → List Permission
to_front p ps = p ∷ remove_first p ps

to_front-IsOrderOf :
    (p : Permission) (ps : List Permission) → contains p ps ≡ true → IsOrderOf (to_front p ps) ps
to_front-IsOrderOf p [] held q = absurd (let j = held in cc)
to_front-IsOrderOf p (x ∷ ps) held q = elim (Bool-cases (x == p)) [
  | inl same ↦ let equal : x ≡ p = (permission_Eq.test_iff x p).0 same in rw (same, equal) refl
  | inr other ↦
      let later = rw other at held in
      let moved = to_front-IsOrderOf p ps later q in rw other (ground (arith, moved))
]

-- A role that has, beside any others, a permission that covers the request at a sufficient level
-- and one that covers it at an insufficient level: its set of permissions has an order of iteration
-- in which the answer is yes, and another one in which it is no.
pub has_permission_order :
    (r : Role) (weak strong : Permission) (resource : Resource) (action : String)
    (level : PermissionLevel)
    → contains weak r.permissions ≡ true
    → contains strong r.permissions ≡ true
    → covers weak resource action ≡ true
    → covers strong resource action ≡ true
    → level_value weak.level < level_value level
    → level_value level ≤ level_value strong.level
    → ((order : List Permission) × IsOrderOf order r.permissions
        × (has_permission (record r { permissions = order }) resource action level ≡ true))
      × ((order : List Permission) × IsOrderOf order r.permissions
          × (has_permission (record r { permissions = order }) resource action level ≡ false))
unfolding has_permission first_decides
has_permission_order r weak strong resource action level has_weak has_strong cw cs lo hi = (
  (
    to_front strong r.permissions,
    to_front-IsOrderOf strong r.permissions has_strong,
    ground (arith, cs, hi),
  ),
  (
    to_front weak r.permissions,
    to_front-IsOrderOf weak r.permissions has_weak,
    ground (arith, cw, lo),
  ),
)

module _ (clock : String → ℕ) (uuid : String → String) where
  level-le-super : (level : PermissionLevel) → leb (level_value level) 16 ≡ true
  level-le-super none_level = refl
  level-le-super read_level = refl
  level-le-super write_level = refl
  level-le-super delete_level = refl
  level-le-super admin_level = refl
  level-le-super super_admin_level = refl

  -- The super administrator may do everything.
  super_admin_policy :
      (resource : Resource) (action : String) (level : PermissionLevel)
      → has_permission (super_admin clock uuid) resource action level ≡ true
  unfolding has_permission super_admin Resource-discrete PermissionLevel-discrete
  super_admin_policy exchange_config action level = level-le-super level
  super_admin_policy _ action level = level-le-super level

  abbrev pub trader_actions : String → Bool
  trader_actions action = contains action write_actions || contains action read_actions
