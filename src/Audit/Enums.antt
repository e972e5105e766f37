-- ===== src/Audit/Enums.antt =====
-- The enumerations of core/audit_logger.py, and the conversions of their values.
use bt_api_security.Prelude.{
  String, ℕ, ◌≡◌, refl, Option, none, some, List, [], ◌∷◌, nat_eq, if◌then◌else◌, Eq, ◌==◌, nat_Eq,
  string_Eq, holds, holds_iff,
}

pub data EventType : Type 0 where
  user_login user_logout password_change role_assignment permission_granted : EventType
  order_created order_modified order_cancelled order_executed trade_settled : EventType
  data_accessed data_exported data_deleted : EventType
  config_change system_startup system_shutdown security_incident : EventType
  payment_processed balance_adjustment account_creation account_deletion : EventType

unfoldable pub EventType-discrete : Discrete EventType
EventType-discrete = hlevel

instance abbrev pub event_type_Eq : Eq EventType
event_type_Eq = record {
  test = λ a b. holds (EventType-discrete a b);
  test_iff = λ a b. holds_iff (EventType-discrete a b);
}

unfoldable pub event_type_value : EventType → String
event_type_value user_login = "user_login"
event_type_value user_logout = "user_logout"
event_type_value password_change = "password_change"
event_type_value role_assignment = "role_assignment"
event_type_value permission_granted = "permission_granted"
event_type_value order_created = "order_created"
event_type_value order_modified = "order_modified"
event_type_value order_cancelled = "order_cancelled"
event_type_value order_executed = "order_executed"
event_type_value trade_settled = "trade_settled"
event_type_value data_accessed = "data_accessed"
event_type_value data_exported = "data_exported"
event_type_value data_deleted = "data_deleted"
event_type_value config_change = "config_change"
event_type_value system_startup = "system_startup"
event_type_value system_shutdown = "system_shutdown"
event_type_value security_incident = "security_incident"
event_type_value payment_processed = "payment_processed"
event_type_value balance_adjustment = "balance_adjustment"
event_type_value account_creation = "account_creation"
event_type_value account_deletion = "account_deletion"

pub data SeverityLevel : Type 0 where
  low medium high critical : SeverityLevel

-- Each level as the number that it is.
unfoldable pub severity_value : SeverityLevel → ℕ
severity_value low = 1
severity_value medium = 2
severity_value high = 3
severity_value critical = 4

-- `EventType(text)` and `SeverityLevel(n)`; `none` is a `ValueError`.
abbrev event_types : List EventType
event_types =
    user_login ∷ user_logout ∷ password_change ∷ role_assignment ∷ permission_granted
    ∷ order_created ∷ order_modified ∷ order_cancelled ∷ order_executed ∷ trade_settled
    ∷ data_accessed ∷ data_exported ∷ data_deleted ∷ config_change ∷ system_startup
    ∷ system_shutdown ∷ security_incident ∷ payment_processed ∷ balance_adjustment
    ∷ account_creation ∷ account_deletion ∷ []

abbrev find_type : String → List EventType → Option EventType
find_type text [] = none
find_type text (t ∷ ts) = if event_type_value t == text then some t else find_type text ts

unfoldable pub event_type_of : String → Option EventType
unfolding event_type_value
event_type_of text = find_type text event_types

unfoldable pub severity_of : ℕ → Option SeverityLevel
severity_of n =
    if nat_eq n 1
    then some low
    else if nat_eq n 2
    then some medium
    else if nat_eq n 3
    then some high
    else if nat_eq n 4
    then some critical
    else none

unfoldable pub severity_name : SeverityLevel → String
severity_name low = "LOW"
severity_name medium = "MEDIUM"
severity_name high = "HIGH"
severity_name critical = "CRITICAL"

pub event_type_of-value : (t : EventType) → event_type_of (event_type_value t) ≡ some t
unfolding event_type_of event_type_value
event_type_of-value user_login = refl
event_type_of-value user_logout = refl
event_type_of-value password_change = refl
event_type_of-value role_assignment = refl
event_type_of-value permission_granted = refl
event_type_of-value order_created = refl
event_type_of-value order_modified = refl
event_type_of-value order_cancelled = refl
event_type_of-value order_executed = refl
event_type_of-value trade_settled = refl
event_type_of-value data_accessed = refl
event_type_of-value data_exported = refl
event_type_of-value data_deleted = refl
event_type_of-value config_change = refl
event_type_of-value system_startup = refl
event_type_of-value system_shutdown = refl
event_type_of-value security_incident = refl
event_type_of-value payment_processed = refl
event_type_of-value balance_adjustment = refl
event_type_of-value account_creation = refl
event_type_of-value account_deletion = refl

pub severity_of-value : (l : SeverityLevel) → severity_of (severity_value l) ≡ some l
unfolding severity_of severity_value
severity_of-value low = refl
severity_of-value medium = refl
severity_of-value high = refl
severity_of-value critical = refl
