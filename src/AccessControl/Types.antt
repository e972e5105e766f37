-- ===== src/AccessControl/Types.antt =====
-- The enumerations and data classes of core/access_control.py.
use bt_api_security.Prelude.{
  String, ℕ, ◌≡◌, ◌↔◌, Bool, true, ◌&&◌, Option, List, [], ◌∷◌, arith, eq_iff, Eq, ◌==◌, nat_Eq,
  string_Eq, holds, holds_iff,
}
use bt_api_security.Dict.{Dict}
use Prim.Native.String

pub data PermissionLevel : Type 0 where
  none_level read_level write_level delete_level admin_level super_admin_level : PermissionLevel

-- The value of the `IntEnum`, by which levels are compared.
abbrev pub level_value : PermissionLevel → ℕ
level_value none_level = 0
level_value read_level = 1
level_value write_level = 2
level_value delete_level = 4
level_value admin_level = 8
level_value super_admin_level = 16

-- `PermissionLevel.name`
pub level_name : PermissionLevel → String
level_name none_level = "NONE"
level_name read_level = "READ"
level_name write_level = "WRITE"
level_name delete_level = "DELETE"
level_name admin_level = "ADMIN"
level_name super_admin_level = "SUPER_ADMIN"

pub data Resource : Type 0 where
  exchange_config trading_accounts order_management market_data user_accounts audit_logs : Resource
  security_config api_keys balance_data position_data trade_history : Resource

unfoldable pub resource_value : Resource → String
resource_value exchange_config = "exchange_config"
resource_value trading_accounts = "trading_accounts"
resource_value order_management = "order_management"
resource_value market_data = "market_data"
resource_value user_accounts = "user_accounts"
resource_value audit_logs = "audit_logs"
resource_value security_config = "security_config"
resource_value api_keys = "api_keys"
resource_value balance_data = "balance_data"
resource_value position_data = "position_data"
resource_value trade_history = "trade_history"

-- `for resource in Resource`
abbrev pub all_resources : List Resource
all_resources =
    exchange_config ∷ trading_accounts ∷ order_management ∷ market_data ∷ user_accounts ∷ audit_logs
    ∷ security_config ∷ api_keys ∷ balance_data ∷ position_data ∷ trade_history ∷ []

unfoldable pub Resource-discrete : Discrete Resource
Resource-discrete = hlevel

instance abbrev pub resource_Eq : Eq Resource
resource_Eq = record {
  test = λ a b. holds (Resource-discrete a b);
  test_iff = λ a b. holds_iff (Resource-discrete a b);
}

-- `Permission`: frozen, so equal by its fields.
pub record Permission : Type 0 where
  pub resource : Resource
  pub action : String
  pub level : PermissionLevel

unfoldable pub PermissionLevel-discrete : Discrete PermissionLevel
PermissionLevel-discrete = hlevel

instance abbrev pub level_Eq : Eq PermissionLevel
level_Eq = record {
  test = λ a b. holds (PermissionLevel-discrete a b);
  test_iff = λ a b. holds_iff (PermissionLevel-discrete a b);
}

abbrev pub permission_eq : Permission → Permission → Bool
permission_eq p q = p.resource == q.resource && p.action == q.action && p.level == q.level

pub permission_eq_iff : (p q : Permission) → (permission_eq p q ≡ true) ↔ (p ≡ q)
permission_eq_iff p q = ground (
  arith,
  resource_Eq.test_iff p.resource q.resource,
  eq_iff p.action q.action,
  level_Eq.test_iff p.level q.level,
)

instance abbrev pub permission_Eq : Eq Permission
permission_Eq = record { test = permission_eq; test_iff = permission_eq_iff }

-- `str(permission)`
pub permission_text : Permission → String
permission_text p =
    String.◌++◌ (resource_value p.resource)
      (String.◌++◌ ":" (String.◌++◌ p.action (String.◌++◌ ":" (level_name p.level))))

-- A value of `attributes: dict[str, Any]`, as far as the rules look at it.
pub data Value : Type 0 where
  none_value : Value
  str : String → Value
  number : ℕ → Value
  boolean : Bool → Value
  texts : List String → Value

pub record Role : Type 0 where
  pub name : String
  pub description : String
  -- A set, in its order of iteration.
  pub permissions : List Permission
  pub attributes : Dict Value
  pub is_system_role : Bool
  pub created_at : ℕ
  pub id : String

pub record User : Type 0 where
  pub user_id : String
  pub username : String
  pub email : String
  -- A set, in its order of iteration.
  pub roles : List String
  pub attributes : Dict Value
  pub is_active : Bool
  pub created_at : ℕ
  pub last_login : Option ℕ
  pub failed_login_attempts : ℕ
  pub locked_until : Option ℕ

-- `user` is a reference to the manager's user of that id: no user is ever removed or replaced.
pub record AccessContext : Type 0 where
  pub user : String
  pub resource : Resource
  pub action : String
  pub ip_address : Option String
  pub user_agent : Option String
  pub timestamp : ℕ
  pub session_id : Option String
  pub request_id : Option String

pub data AccessError : Type 0 where
  user_exists user_not_found role_exists role_not_found : String → AccessError
  -- `AccessDeniedError(user_id, resource, action, reason)`
  access_denied : String → String → String → String → AccessError
  -- `in` on a value that is no container.
  type_error : AccessError
