-- ===== src/Threat/Types.antt =====
-- The enumerations, the event class and the state of core/threat_detection.py.
use bt_api_security.Prelude.{String, ℕ, Bool, Option, List, nat_Eq, string_Eq}
use bt_api_security.Dict.{Dict}

pub data ThreatLevel : Type 0 where
  low medium high critical : ThreatLevel

unfoldable pub level_value : ThreatLevel → String
level_value low = "low"
level_value medium = "medium"
level_value high = "high"
level_value critical = "critical"

pub data ThreatType : Type 0 where
  brute_force suspicious_login anomalous_traffic data_exfiltration : ThreatType
  unauthorized_access malicious_request sql_injection xss_attack : ThreatType

unfoldable pub type_value : ThreatType → String
type_value brute_force = "brute_force"
type_value suspicious_login = "suspicious_login"
type_value anomalous_traffic = "anomalous_traffic"
type_value data_exfiltration = "data_exfiltration"
type_value unauthorized_access = "unauthorized_access"
type_value malicious_request = "malicious_request"
type_value sql_injection = "sql_injection"
type_value xss_attack = "xss_attack"

-- The values that `details` holds.
pub data Detail : Type 0 where
  text : String → Detail
  number : ℕ → Detail
  time : ℕ → Detail
  other : String → Detail

pub record ThreatEvent : Type 0 where
  pub event_id : String
  pub threat_type : ThreatType
  pub level : ThreatLevel
  pub user_id : Option String
  pub ip_address : Option String
  pub details : Dict Detail
  pub timestamp : ℕ
  pub resolved : Bool

pub record Thresholds : Type 0 where
  pub failed_login_threshold : ℕ
  pub suspicious_ip_threshold : ℕ
  pub data_access_threshold : ℕ

-- An entry of `_baseline_patterns`.
pub record Baseline : Type 0 where
  pub normal_login_hours : List ℕ
  pub usual_ip_addresses : List String
  pub average_data_access : ℕ
  pub created_at : ℕ

pub record ThreatDetector : Type 0 where
  pub thresholds : Thresholds
  pub failed_logins : Dict (List ℕ)
  pub suspicious_ips : Dict ℕ
  pub data_access_patterns : Dict (List ℕ)
  pub threat_events : List ThreatEvent
  pub baseline_patterns : Dict Baseline
