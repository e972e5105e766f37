-- ===== src/AccessControl/Roles.antt =====
-- `class Role`, and the roles that `_init_system_roles` of core/access_control.py sets up.
use bt_api_security.Prelude.{
  String, ℕ, Bool, true, false, not, ◌&&◌, ◌||◌, List, [], ◌∷◌, map, leb, if◌then◌else◌, ◌==◌,
  nat_Eq, string_Eq, contains, add, discard,
}
use bt_api_security.Dict.{Dict, insert}
use bt_api_security.AccessControl.Types.{
  PermissionLevel, read_level, write_level, super_admin_level, level_value, Resource,
  order_management, market_data, audit_logs, balance_data, position_data, trade_history,
  all_resources, resource_Eq, Permission, permission_Eq, Role, Value,
}

-- `Role.add_permission`
unfoldable pub add_permission : Permission → Role → Role
add_permission p r = record r { permissions = add p r.permissions }

-- `Role.remove_permission`
unfoldable pub remove_permission : Permission → Role → Role
remove_permission p r = record r { permissions = discard p r.permissions }

-- The names that a permission to `write` stands for.
abbrev pub write_actions : List String
write_actions = "create" ∷ "update" ∷ "modify" ∷ "write" ∷ []

abbrev pub read_actions : List String
read_actions = "read" ∷ "view" ∷ "list" ∷ []

-- `action_match` after the two widenings.
unfoldable pub matches_action : String → String → Bool
matches_action granted action =
    let exact = granted == "*" || granted == action in
    let written =
      if not exact && granted == "write" then contains action write_actions else exact in
    if not written && granted == "read" then contains action read_actions else written

unfoldable pub covers : Permission → Resource → String → Bool
covers p resource action = p.resource == resource && matches_action p.action action

-- The loop of `Role.has_permission`: the first permission that covers the request decides.
unfoldable pub first_decides : List Permission → Resource → String → PermissionLevel → Bool
first_decides [] resource action level = false
first_decides (p ∷ ps) resource action level =
    if covers p resource action
    then leb (level_value level) (level_value p.level)
    else first_decides ps resource action level

unfoldable pub has_permission : Role → Resource → String → PermissionLevel → Bool
unfolding first_decides covers matches_action
has_permission r = first_decides r.permissions

unfoldable pub new_role : String → String → Bool → Dict Value → ℕ → String → Role
new_role name description is_system attributes now id = record {
  name = name;
  description = description;
  permissions = [];
  attributes = attributes;
  is_system_role = is_system;
  created_at = now;
  id = id;
}

unfoldable pub grant_each : List Permission → Role → Role
unfolding add_permission
grant_each [] r = r
grant_each (p ∷ ps) r = grant_each ps (add_permission p r)

abbrev pub super_admin_permissions : List Permission
super_admin_permissions =
    map (λ r. record { resource = r; action = "*"; level = super_admin_level }) all_resources

abbrev pub trading_resources : List Resource
trading_resources =
    market_data ∷ order_management ∷ balance_data ∷ position_data ∷ trade_history ∷ []

-- For each resource the actions `read` and `write`, both at level WRITE.
abbrev pub trader_permissions : List Resource → List Permission
trader_permissions [] = []
trader_permissions (r ∷ rs) =
    record { resource = r; action = "read"; level = write_level }
    ∷ record { resource = r; action = "write"; level = write_level }
    ∷ trader_permissions rs

abbrev pub audit_resources : List Resource
audit_resources = audit_logs ∷ trade_history ∷ order_management ∷ []

abbrev pub auditor_permissions : List Permission
auditor_permissions =
    map (λ r. record { resource = r; action = "read"; level = read_level }) audit_resources

-- `time.time()` and `uuid4()` as they come out for the role of each name.
module _ (clock : String → ℕ) (uuid : String → String) where
  abbrev system_role : String → String → Role
  system_role name description = new_role name description true [] (clock name) (uuid name)

  unfoldable pub super_admin : Role
  unfolding new_role grant_each
  super_admin = grant_each super_admin_permissions (system_role "super_admin" "Full system access")

  unfoldable pub trader : Role
  unfolding new_role grant_each
  trader =
      grant_each (trader_permissions trading_resources) (system_role "trader" "Trading access only")

  unfoldable pub auditor : Role
  unfolding new_role grant_each
  auditor = grant_each auditor_permissions (system_role "auditor" "Audit and compliance access")

  -- `_init_system_roles`
  unfoldable pub system_roles : Dict Role
  unfolding insert
  system_roles =
      insert "auditor" auditor (insert "trader" trader (insert "super_admin" super_admin []))
