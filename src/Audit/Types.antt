-- ===== src/Audit/Types.antt =====
-- The event class of core/audit_logger.py, its dictionary and its line.
use bt_api_security.Prelude.{
  String, ℕ, ◌≡◌, refl, ◌↔◌, Bool, true, false, not, Option, none, some, List, arith, eq_iff,
  if◌then◌else◌, ◌==◌, nat_Eq, string_Eq,
}
use bt_api_security.Dict.{Dict}
pub use bt_api_security.Audit.Enums.{
  EventType, user_login, user_logout, password_change, role_assignment, permission_granted,
  order_created, order_modified, order_cancelled, order_executed, trade_settled, data_accessed,
  data_exported, data_deleted, config_change, system_startup, system_shutdown, security_incident,
  payment_processed, balance_adjustment, account_creation, account_deletion, event_type_Eq,
  SeverityLevel, low, medium, high, critical, event_type_of-value, severity_of-value,
}
unfoldable pub use bt_api_security.Audit.Enums.{
  EventType-discrete, event_type_value, severity_value, severity_name, event_type_of, severity_of,
}

-- `details` gives each value by its JSON text.
pub record AuditEvent : Type 0 where
  pub event_id : String
  pub timestamp : ℕ
  pub event_type : EventType
  pub severity : SeverityLevel
  pub user_id : Option String
  pub session_id : Option String
  pub ip_address : Option String
  pub user_agent : Option String
  pub resource : Option String
  pub action : Option String
  pub outcome : String
  pub details : Dict String
  pub compliance_tags : List String
  pub previous_hash : Option String
  pub event_hash : Option String

-- The dictionary of an event, where `event_type` and `severity` may be missing and are given by
-- text and number.
pub record EventDict : Type 0 where
  pub event_id : String
  pub timestamp : ℕ
  pub event_type : Option String
  pub severity : Option ℕ
  pub user_id : Option String
  pub session_id : Option String
  pub ip_address : Option String
  pub user_agent : Option String
  pub resource : Option String
  pub action : Option String
  pub outcome : String
  pub details : Dict String
  pub compliance_tags : List String
  pub previous_hash : Option String
  pub event_hash : Option String

-- `AuditEvent.to_dict`
unfoldable pub to_dict : AuditEvent → EventDict
unfolding event_type_value severity_value
to_dict e = record {
  event_id = e.event_id;
  timestamp = e.timestamp;
  event_type = some (event_type_value e.event_type);
  severity = some (severity_value e.severity);
  user_id = e.user_id;
  session_id = e.session_id;
  ip_address = e.ip_address;
  user_agent = e.user_agent;
  resource = e.resource;
  action = e.action;
  outcome = e.outcome;
  details = e.details;
  compliance_tags = e.compliance_tags;
  previous_hash = e.previous_hash;
  event_hash = e.event_hash;
}

-- The conversions of `AuditEvent.from_dict`, with the defaults of the class for what is missing.
unfoldable pub type_from : Option String → Option EventType
unfolding event_type_of
type_from none = some user_login
type_from (some text) = event_type_of text

unfoldable pub severity_from : Option ℕ → Option SeverityLevel
unfolding severity_of
severity_from none = some medium
severity_from (some n) = severity_of n

-- The truth value of a text that may be `None`, and `==` on such texts.
abbrev pub truthy : Option String → Bool
truthy none = false
truthy (some s) = not (s == "")

unfoldable pub same_text : Option String → Option String → Bool
same_text none none = true
same_text none (some t) = false
same_text (some s) none = false
same_text (some s) (some t) = s == t

pub same_text_iff : (a b : Option String) → (same_text a b ≡ true) ↔ (a ≡ b)
unfolding same_text
same_text_iff none none = (λ h. refl, λ h. refl)
same_text_iff none (some t) = (λ h. cc, λ h. cc)
same_text_iff (some s) none = (λ h. cc, λ h. cc)
same_text_iff (some s) (some t) = (λ h. ground (arith, eq_iff s t), λ h. ground (arith, eq_iff s t))

-- `json` and `hashlib`, as the logger uses them: the stripped line that a dictionary is dumped to,
-- the dictionary that is loaded from a line (`none` is an exception; fields other than the type and
-- the severity that a line omits have the values that the class gives them), its `event_hash`
-- field, and the hexadecimal SHA-256 of the sorted JSON of an event.
pub record Json (Line : Type 0) : Type 0 where
  pub encode : EventDict → Line
  pub decode : Line → Option EventDict
  pub is_blank : Line → Bool
  pub hash_field : Line → Option String
  pub digest : AuditEvent → String

-- `json` loads the dictionary that it dumped, and a dumped dictionary is not a blank line.
pub record IsFaithful {Line : Type 0} (json : Json Line) : Type 0 where
  pub decode_encode : (d : EventDict) → json.decode (json.encode d) ≡ some d
  pub not_blank : (d : EventDict) → json.is_blank (json.encode d) ≡ false
  pub hash_field_encode : (d : EventDict) → json.hash_field (json.encode d) ≡ d.event_hash

module _ {Line : Type 0} (json : Json Line) where
  -- `AuditEvent._calculate_hash`
  unfoldable pub calculate_hash : AuditEvent → String
  calculate_hash e = json.digest (record e { previous_hash = none; event_hash = none })

  -- `AuditEvent.__post_init__`
  unfoldable pub post_init : AuditEvent → AuditEvent
  unfolding calculate_hash
  post_init e = if truthy e.event_hash then e else record e { event_hash = some (calculate_hash e) }

  -- `AuditEvent.verify_integrity`
  unfoldable pub verify_integrity : AuditEvent → Bool
  unfolding calculate_hash same_text
  verify_integrity e = same_text (some (calculate_hash e)) e.event_hash

  -- `AuditEvent.from_dict`; `none` is a `ValueError`.
  unfoldable pub from_dict : EventDict → Option AuditEvent
  unfolding type_from severity_from post_init
  from_dict d = elim (type_from d.event_type) [
    | none ↦ none
    | some type ↦ elim (severity_from d.severity) [
      | none ↦ none
      | some severity ↦ some (
          post_init (record {
            event_id = d.event_id;
            timestamp = d.timestamp;
            event_type = type;
            severity = severity;
            user_id = d.user_id;
            session_id = d.session_id;
            ip_address = d.ip_address;
            user_agent = d.user_agent;
            resource = d.resource;
            action = d.action;
            outcome = d.outcome;
            details = d.details;
            compliance_tags = d.compliance_tags;
            previous_hash = d.previous_hash;
            event_hash = d.event_hash;
          }))
    ]
  ]

  -- The line of an event: its dictionary, dumped.
  abbrev pub line_of : AuditEvent → Line
  line_of e = json.encode (to_dict e)

  -- `AuditEvent.from_dict(json.loads(line))`; `none` is an exception.
  unfoldable pub load : Line → Option AuditEvent
  unfolding from_dict
  load line = elim (json.decode line) [ none ↦ none | some d ↦ from_dict d ]

  -- What `to_dict` gives is read back by `from_dict`, which hashes the event if it has no hash.
  pub from_dict-to_dict : (e : AuditEvent) → from_dict (to_dict e) ≡ some (post_init e)
  unfolding from_dict to_dict type_from severity_from
  from_dict-to_dict e =
      rw (from_dict, event_type_of-value e.event_type, severity_of-value e.severity) refl

  pub load-line_of : IsFaithful json → (e : AuditEvent) → load (line_of e) ≡ some (post_init e)
  unfolding load
  load-line_of faithful e = rw (load, faithful.decode_encode (to_dict e)) (from_dict-to_dict e)
