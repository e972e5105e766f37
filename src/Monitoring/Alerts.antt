-- ===== src/Monitoring/Alerts.antt =====
-- `SecurityMonitoring` of monitoring/security_monitoring.py. The alerts are in a list; `get_alerts`
-- without filters sorts that very list.
use bt_api_security.Prelude.{
  String, ℕ, ◌+◌, ◌*◌, Bool, true, false, not, Option, none, some, List, [], ◌∷◌, ◌++◌, ltb,
  if◌then◌else◌, Eq, ◌==◌, nat_Eq, string_Eq, holds, holds_iff, length, take, select, ok, err, Exec,
  second, whole_seconds,
}
use bt_api_security.Prelude.Text.{◌^◌}
use bt_api_security.Prelude.Decimal.{decimal}
use bt_api_security.Dict.{Dict}

pub data AlertSeverity : Type 0 where
  info low medium high critical : AlertSeverity

unfoldable pub AlertSeverity-discrete : Discrete AlertSeverity
AlertSeverity-discrete = hlevel

instance abbrev pub alert_severity_Eq : Eq AlertSeverity
alert_severity_Eq = record {
  test = λ a b. holds (AlertSeverity-discrete a b);
  test_iff = λ a b. holds_iff (AlertSeverity-discrete a b);
}

-- The details of an alert are texts.
pub record SecurityAlert : Type 0 where
  pub alert_id : String
  pub title : String
  pub description : String
  pub severity : AlertSeverity
  pub source : String
  pub timestamp : ℕ
  pub details : Dict String
  pub acknowledged : Bool
  pub resolved : Bool

-- The import of `.audit_logger`, which is no module of that package, raises.
pub data MonitoringError : Type 0 where
  no_module : MonitoringError

-- A handler is a name; what it does with an alert, a raise included, does not reach the monitoring.
pub record SecurityMonitoring : Type 0 where
  pub has_audit_logger : Bool
  pub alerts : List SecurityAlert
  pub alert_handlers : List String

unfoldable pub init : Bool → SecurityMonitoring
init has_audit_logger = record {
  has_audit_logger = has_audit_logger;
  alerts = [];
  alert_handlers = [];
}

abbrev pub new_alert :
    (now stamped : ℕ)
    → String
    → String
    → AlertSeverity
    → String
    → Dict String
    → SecurityMonitoring
    → SecurityAlert
new_alert now stamped title description severity source details s = record {
  alert_id = "sec_" ^ decimal (whole_seconds now) ^ "_" ^ decimal (length s.alerts);
  title = title;
  description = description;
  severity = severity;
  source = source;
  timestamp = stamped;
  details = details;
  acknowledged = false;
  resolved = false;
}

-- The alert, and the handlers that are called with it, in order. The alert is stored before the
-- import that raises.
unfoldable pub create_alert :
    (now stamped : ℕ)
    → String
    → String
    → AlertSeverity
    → String
    → Dict String
    → Exec MonitoringError SecurityMonitoring (SecurityAlert × List String)
create_alert now stamped title description severity source details s =
    let alert : SecurityAlert = new_alert now stamped title description severity source details s in
    let t : SecurityMonitoring = record s { alerts = s.alerts ++ alert ∷ [] } in
    if s.has_audit_logger then (err no_module, t) else (ok (alert, s.alert_handlers), t)

-- `sort(key=timestamp, reverse=True)`, which keeps the order of equal timestamps.
unfoldable pub insert_newest : SecurityAlert → List SecurityAlert → List SecurityAlert
insert_newest a [] = a ∷ []
insert_newest a (b ∷ bs) =
    let rest = insert_newest a bs in if ltb a.timestamp b.timestamp then b ∷ rest else a ∷ b ∷ bs

unfoldable pub newest_first : List SecurityAlert → List SecurityAlert
unfolding insert_newest
newest_first [] = []
newest_first (a ∷ xs) = insert_newest a (newest_first xs)

abbrev pub with_severity : Option AlertSeverity → List SecurityAlert → List SecurityAlert
with_severity none xs = xs
with_severity (some v) xs = select (λ a. a.severity == v) xs

-- `a.acknowledged == flag`
abbrev pub is_same : Bool → Bool → Bool
is_same true b = b
is_same false b = not b

abbrev pub with_flag : Option Bool → List SecurityAlert → List SecurityAlert
with_flag none xs = xs
with_flag (some flag) xs = select (λ a. is_same flag a.acknowledged) xs

-- Without a filter the sorted list is the stored one.
unfoldable pub get_alerts :
    Option AlertSeverity
    → Option Bool
    → ℕ
    → SecurityMonitoring
    → List SecurityAlert × SecurityMonitoring
unfolding newest_first
get_alerts none none limit s =
    (take limit (newest_first s.alerts), record s { alerts = newest_first s.alerts })
get_alerts (some v) flag limit s =
    (take limit (newest_first (with_flag flag (with_severity (some v) s.alerts))), s)
get_alerts none (some flag) limit s =
    (take limit (newest_first (with_flag (some flag) s.alerts)), s)

-- The first alert with an id is written; the Boolean tells whether there is one.
unfoldable pub write_first :
    (SecurityAlert → SecurityAlert) → String → List SecurityAlert → Bool × List SecurityAlert
write_first f alert_id [] = (false, [])
write_first f alert_id (a ∷ xs) =
    let rest = write_first f alert_id xs in
    if a.alert_id == alert_id then (true, f a ∷ xs) else (rest.0, a ∷ rest.1)

abbrev pub acknowledge : SecurityAlert → SecurityAlert
acknowledge a = record a { acknowledged = true }

abbrev pub resolve : SecurityAlert → SecurityAlert
resolve a = record a { resolved = true }

unfoldable pub acknowledge_alert : String → SecurityMonitoring → Bool × SecurityMonitoring
unfolding write_first
acknowledge_alert alert_id s = (
  (write_first acknowledge alert_id s.alerts).0,
  record s { alerts = (write_first acknowledge alert_id s.alerts).1 },
)

unfoldable pub resolve_alert : String → SecurityMonitoring → Bool × SecurityMonitoring
unfolding write_first
resolve_alert alert_id s = (
  (write_first resolve alert_id s.alerts).0,
  record s { alerts = (write_first resolve alert_id s.alerts).1 },
)

unfoldable pub add_alert_handler : String → SecurityMonitoring → SecurityMonitoring
add_alert_handler handler s = record s { alert_handlers = s.alert_handlers ++ handler ∷ [] }

pub record Summary : Type 0 where
  pub total_alerts : ℕ
  pub unacknowledged : ℕ
  pub critical : ℕ
  pub high : ℕ
  pub recent_24h : ℕ

abbrev pub count : (SecurityAlert → Bool) → List SecurityAlert → ℕ
count p xs = length (select p xs)

-- `time.time() - a.timestamp < 86400`; the clock is read once for all alerts.
abbrev pub is_recent : ℕ → SecurityAlert → Bool
is_recent now a = ltb now (a.timestamp + 86400 * second)

unfoldable pub get_monitoring_summary : ℕ → SecurityMonitoring → Summary
get_monitoring_summary now s = record {
  total_alerts = length s.alerts;
  unacknowledged = count (λ a. not a.acknowledged) s.alerts;
  critical = count (λ a. a.severity == critical) s.alerts;
  high = count (λ a. a.severity == high) s.alerts;
  recent_24h = count (is_recent now) s.alerts;
}
