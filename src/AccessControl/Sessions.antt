-- ===== src/AccessControl/Sessions.antt =====
-- Sessions, lockout, and what `AccessControlManager` of core/access_control.py reports.
use bt_api_security.Prelude.{
  String, ℕ, ◌+◌, ◌*◌, Bool, not, ◌||◌, Option, none, some, List, [], ◌∷◌, leb, if◌then◌else◌,
  nat_Eq, string_Eq, add, ok, ◌>>=◌, ◌>>◌, pure, modify, raise_if, or_raise, second,
}
use bt_api_security.Dict.{Dict, lookup, insert, erase}
use bt_api_security.AccessControl.Types.{
  Resource, resource_value, user_accounts, resource_Eq, Permission, permission_Eq, Value,
  none_value, str, number, Role, User, AccessContext, user_not_found, access_denied,
}
use bt_api_security.AccessControl.Manager.{Action, is_locked, get_user, write_user}

-- The keyword arguments of `create_session`, each as given or left out.
pub record ContextAttrs : Type 0 where
  pub ip_address : Option String
  pub user_agent : Option String
  pub timestamp : Option ℕ
  pub session_id : Option String
  pub request_id : Option String

-- `AccessContext(user=user, resource=USER_ACCOUNTS, action="create_session", **context_attrs)`
unfoldable pub session_context : String → ContextAttrs → ℕ → AccessContext
session_context user_id attrs now = record {
  user = user_id;
  resource = user_accounts;
  action = "create_session";
  ip_address = attrs.ip_address;
  user_agent = attrs.user_agent;
  timestamp = elim attrs.timestamp [ none ↦ now | some t ↦ t ];
  session_id = attrs.session_id;
  request_id = attrs.request_id;
}

unfoldable pub note_login : ℕ → User → User
note_login now u = record u { last_login = some now; failed_login_attempts = 0 }

-- `checked`, `stamped` and `logged` are the readings of the clock, `session_id` is from `uuid4`.
unfoldable pub create_session : ℕ → ℕ → ℕ → String → String → ContextAttrs → Action String
unfolding get_user is_locked session_context write_user note_login
create_session checked stamped logged session_id user_id attrs = do
  user ← or_raise (← get_user user_id) (user_not_found user_id)
  raise_if (not user.is_active || is_locked checked user)
      (access_denied user_id "session" "create" "Account inactive or locked")
  modify (λ m. record m {
    session_contexts = insert session_id (session_context user_id attrs stamped) m.session_contexts;
  })
  write_user user_id (note_login logged)
  pure session_id

unfoldable pub validate_session : String → Action (Option AccessContext)
validate_session session_id m = (ok (lookup session_id m.session_contexts), m)

unfoldable pub revoke_session : String → Action (Unit {0})
revoke_session session_id m =
    (ok tt, record m { session_contexts = erase session_id m.session_contexts })

unfoldable pub set_locked_until : Option ℕ → User → User
set_locked_until until u = record u { locked_until = until }

-- `duration` is in seconds.
unfoldable pub lock_user : ℕ → String → ℕ → Action (Unit {0})
unfolding get_user write_user set_locked_until
lock_user now user_id duration = do
  user ← get_user user_id
  elim user [
    | none ↦ pure tt
    | some _ ↦ write_user user_id (set_locked_until (some (now + duration * second)))
  ]

unfoldable pub clear_lock : User → User
clear_lock u = record u { locked_until = none; failed_login_attempts = 0 }

unfoldable pub unlock_user : String → Action (Unit {0})
unfolding get_user write_user clear_lock
unlock_user user_id = do
  user ← get_user user_id
  elim user [ none ↦ pure tt | some _ ↦ write_user user_id clear_lock ]

unfoldable pub reset_failures : User → User
reset_failures u = record u { failed_login_attempts = 0 }

unfoldable pub count_failure : User → User
count_failure u = record u { failed_login_attempts = u.failed_login_attempts + 1 }

unfoldable pub record_login_attempt : ℕ → String → Bool → Action (Unit {0})
unfolding get_user write_user reset_failures count_failure lock_user
record_login_attempt now user_id success = do
  found ← get_user user_id
  elim found [
    | none ↦ pure tt
    | some user ↦ if success then write_user user_id reset_failures else do
      write_user user_id count_failure
      if leb 3 (user.failed_login_attempts + 1) then lock_user now user_id 900 else pure tt
  ]

-- `found.update(permissions)`
unfoldable pub add_each : List Permission → List Permission → List Permission
add_each [] found = found
add_each (p ∷ ps) found = add_each ps (add p found)

-- The loop of `get_user_permissions`.
unfoldable pub collect_permissions : Dict Role → List String → List Permission → List Permission
unfolding add_each
collect_permissions roles [] found = found
collect_permissions roles (name ∷ names) found =
    collect_permissions roles names
      (elim (lookup name roles) [ none ↦ found | some role ↦ add_each role.permissions found ])

unfoldable pub get_user_permissions : String → Action (List Permission)
unfolding collect_permissions
get_user_permissions user_id m = elim (lookup user_id m.users) [
  | none ↦ (ok [], m)
  | some user ↦ (ok (collect_permissions m.roles user.roles []), m)
]

pub record AuditRecord : Type 0 where
  pub user_id : String
  pub resource : String
  pub action : String
  pub granted : Bool
  pub timestamp : ℕ
  pub ip_address : Option String
  pub user_agent : Option String
  pub session_id : Option String
  pub request_id : Option String

from_context : (AccessContext → Option String) → Option AccessContext → Option String
from_context field none = none
from_context field (some c) = field c

unfoldable pub audit_access :
    ℕ → String → Resource → String → Bool → Option AccessContext → AuditRecord
unfolding from_context
audit_access now user_id resource action granted context = record {
  user_id = user_id;
  resource = resource_value resource;
  action = action;
  granted = granted;
  timestamp = now;
  ip_address = from_context (λ c. c.ip_address) context;
  user_agent = from_context (λ c. c.user_agent) context;
  session_id = from_context (λ c. c.session_id) context;
  request_id = from_context (λ c. c.request_id) context;
}

str_or_none : Option String → Value
str_or_none none = none_value
str_or_none (some s) = str s

update_dict : Dict Value → Dict Value → Dict Value
update_dict d [] = d
update_dict d ((k, v) ∷ more) = update_dict (insert k v d) more

-- `AccessContext.to_dict`: the user's attributes are written over the fields.
unfoldable pub to_dict : User → AccessContext → Dict Value
unfolding str_or_none update_dict insert
to_dict user c =
    update_dict
      (("user_id", str user.user_id)
        ∷ ("username", str user.username)
        ∷ ("resource", str (resource_value c.resource))
        ∷ ("action", str c.action)
        ∷ ("ip_address", str_or_none c.ip_address)
        ∷ ("user_agent", str_or_none c.user_agent)
        ∷ ("timestamp", number c.timestamp)
        ∷ ("session_id", str_or_none c.session_id)
        ∷ ("request_id", str_or_none c.request_id)
        ∷ [])
      user.attributes
