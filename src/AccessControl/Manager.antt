-- ===== src/AccessControl/Manager.antt =====
-- `class AccessControlManager` of core/access_control.py. Each reading of the clock and each
-- identifier from `uuid4` is an argument.
use bt_api_security.Prelude.{
  String, ℕ, Bool, true, false, not, ◌&&◌, ◌||◌, Option, none, some, List, [], ◌∷◌, ltb, leb,
  if◌then◌else◌, ◌==◌, nat_Eq, string_Eq, contains, add, discard, Result, ok, err, Exec, ◌>>=◌,
  ◌>>◌, pure, gets, modify, raise_if, or_raise, LocalTime,
}
use bt_api_security.Dict.{Dict, lookup, has_key, insert, adjust}
use bt_api_security.AccessControl.Types.{
  PermissionLevel, admin_level, level_value, Resource, resource_value, trading_accounts, api_keys,
  security_config, resource_Eq, permission_Eq, Value, str, texts, Role, User, AccessContext,
  AccessError, user_exists, user_not_found, role_exists, role_not_found, access_denied, type_error,
}
use bt_api_security.AccessControl.Roles.{has_permission, new_role, system_roles}
use text.Mathlib.Text.{find?}

pub record Manager : Type 0 where
  pub users : Dict User
  pub roles : Dict Role
  pub session_contexts : Dict AccessContext
  pub encryption_key : Option String

abbrev pub Action : Type 0 → Type 0
Action A = Exec AccessError Manager A

-- `AccessControlManager.__init__`
unfoldable pub init : (String → ℕ) → (String → String) → Option String → Manager
init clock uuid key = record {
  users = [];
  roles = system_roles clock uuid;
  session_contexts = [];
  encryption_key = key;
}

-- `User.is_locked`
unfoldable pub is_locked : ℕ → User → Bool
is_locked now u = elim u.locked_until [ none ↦ false | some until ↦ ltb now until ]

unfoldable pub new_user : String → String → String → Dict Value → ℕ → User
new_user user_id username email attributes now = record {
  user_id = user_id;
  username = username;
  email = email;
  roles = [];
  attributes = attributes;
  is_active = true;
  created_at = now;
  last_login = none;
  failed_login_attempts = 0;
  locked_until = none;
}

-- `User.add_role`, `User.remove_role`
unfoldable pub add_role : String → User → User
add_role name u = record u { roles = add name u.roles }

unfoldable pub remove_role : String → User → User
remove_role name u = record u { roles = discard name u.roles }

unfoldable pub get_user : String → Action (Option User)
get_user user_id m = (ok (lookup user_id m.users), m)

unfoldable pub get_role : String → Action (Option Role)
get_role name m = (ok (lookup name m.roles), m)

-- A write to the user object of that id.
unfoldable pub write_user : String → (User → User) → Action (Unit {0})
write_user user_id f m = (ok tt, record m { users = adjust user_id f m.users })

unfoldable pub create_user : String → String → String → Dict Value → ℕ → Action User
unfolding new_user add_role
create_user user_id username email attributes now = do
  raise_if (← gets (λ m. has_key user_id m.users)) (user_exists user_id)
  let user = add_role "trader" (new_user user_id username email attributes now)
  modify (λ m. record m { users = insert user_id user m.users })
  pure user

unfoldable pub create_role : String → String → Dict Value → ℕ → String → Action Role
unfolding new_role
create_role name description attributes now id = do
  raise_if (← gets (λ m. has_key name m.roles)) (role_exists name)
  let role = new_role name description false attributes now id
  modify (λ m. record m { roles = insert name role m.roles })
  pure role

unfoldable pub assign_role : String → String → Action (Unit {0})
unfolding get_user get_role write_user add_role
assign_role user_id role_name = do
  or_raise (← get_user user_id) (user_not_found user_id)
  or_raise (← get_role role_name) (role_not_found role_name)
  write_user user_id (add_role role_name)

unfoldable pub revoke_role : String → String → Action (Unit {0})
unfolding get_user write_user remove_role
revoke_role user_id role_name = do
  or_raise (← get_user user_id) (user_not_found user_id)
  write_user user_id (remove_role role_name)

-- The loop of `check_permission` over the user's roles.
unfoldable pub some_role_grants :
    Dict Role → List String → Resource → String → PermissionLevel → Bool
some_role_grants roles [] resource action level = false
some_role_grants roles (name ∷ names) resource action level = elim (lookup name roles) [
  | none ↦ some_role_grants roles names resource action level
  | some role ↦
      if has_permission role resource action level
      then true
      else some_role_grants roles names resource action level
]

-- `ip in allowed`: membership in a list, a substring of a text, and a `TypeError` elsewhere.
unfoldable pub is_in : Option String → Value → Result AccessError Bool
is_in none (texts xs) = ok false
is_in (some s) (texts xs) = ok (contains s xs)
is_in (some s) (str t) = ok (elim (find? t s) [ none ↦ false | some _ ↦ true ])
is_in _ _ = err type_error

abbrev is_sensitive : Resource → Bool
is_sensitive resource = resource == api_keys || resource == security_config

-- Rules 2 and 3 of `_check_abac_rules`, after which the answer is `False`.
unfoldable pub restrict :
    (ℕ → LocalTime) → User → Resource → PermissionLevel → AccessContext → Result AccessError Bool
unfolding is_in
restrict local_time user resource level context =
    let late =
      if leb (level_value admin_level) (level_value level)
      then (if leb 5 (local_time context.timestamp).weekday then ok false else ok false)
      else ok false in
    if is_sensitive resource
    then elim (lookup "allowed_ips" user.attributes) [
      | none ↦ late
      | some allowed ↦ elim (is_in context.ip_address allowed) [
        | ok inside ↦ if not inside then ok false else late
        | err e ↦ err e
      ]
    ]
    else late

-- `_check_abac_rules`
unfoldable pub check_abac_rules :
    (ℕ → LocalTime) → User → Resource → PermissionLevel → AccessContext → Result AccessError Bool
unfolding restrict
check_abac_rules local_time user resource level context =
    let hour = (local_time context.timestamp).hour in
    if resource == trading_accounts
      && has_key "account_owner" user.attributes
      && leb 9 hour
      && leb hour 17
    then ok true
    else restrict local_time user resource level context

-- `check_permission`; `now` is the clock that `is_locked` reads.
unfoldable pub decide_for :
    (ℕ → LocalTime)
    → ℕ
    → Dict Role
    → User
    → Resource
    → String
    → PermissionLevel
    → Option AccessContext
    → Result AccessError Bool
unfolding is_locked some_role_grants check_abac_rules
decide_for local_time now roles user resource action level context =
    if not user.is_active || is_locked now user
    then ok false
    else if some_role_grants roles user.roles resource action level
    then ok true
    else elim context [
      | none ↦ ok false
      | some c ↦ check_abac_rules local_time user resource level c
    ]

unfoldable pub check_permission :
    (ℕ → LocalTime)
    → ℕ
    → String
    → Resource
    → String
    → PermissionLevel
    → Option AccessContext
    → Action Bool
unfolding decide_for
check_permission local_time now user_id resource action level context m =
    elim (lookup user_id m.users) [
      | none ↦ (ok false, m)
      | some user ↦ (decide_for local_time now m.roles user resource action level context, m)
    ]

-- `context.user.is_locked()`
unfoldable pub context_is_locked : ℕ → Option AccessContext → Manager → Bool
unfolding is_locked
context_is_locked now none m = false
context_is_locked now (some c) m = elim (lookup c.user m.users) [
  | none ↦ false
  | some user ↦ is_locked now user
]

-- `later` is the second reading of the clock, for the reason of the refusal.
unfoldable pub require_permission :
    (ℕ → LocalTime)
    → ℕ
    → ℕ
    → String
    → Resource
    → String
    → PermissionLevel
    → Option AccessContext
    → Action (Unit {0})
unfolding check_permission context_is_locked
require_permission local_time now later user_id resource action level context = do
  granted ← check_permission local_time now user_id resource action level context
  locked ← gets (context_is_locked later context)
  raise_if (not granted) (
      access_denied user_id (resource_value resource) action
        (if locked then "Account is locked" else "Insufficient permissions"))
