-- ===== src/Threat/Responses.antt =====
-- `ThreatDetector` of core/threat_detection.py: summaries, resolution, responses and baselines.
use bt_api_security.Prelude.{
  String, ℕ, ◌+◌, ◌-◌, ◌*◌, Bool, true, false, not, ◌&&◌, ◌||◌, Option, none, some, List, [], ◌∷◌,
  ◌++◌, map, leb, nat_eq, if◌then◌else◌, ◌==◌, nat_Eq, string_Eq, length, drop, select, contains,
  second,
}
use bt_api_security.Dict.{Dict, lookup, insert}
use bt_api_security.Threat.Types.{
  ThreatLevel, low, medium, high, critical, level_value, type_value, text, time, ThreatEvent,
  ThreatDetector,
}
use bt_api_security.Threat.Detector.{count_at}
use bt_api_security.Prelude.Text.{◌^◌}

pub record EventSummary : Type 0 where
  pub event_id : String
  pub type : String
  pub level : String
  pub user_id : Option String
  pub timestamp : ℕ

pub record ThreatSummary : Type 0 where
  pub total_threats : ℕ
  pub time_window_seconds : ℕ
  pub by_type : Dict ℕ
  pub by_level : Dict ℕ
  pub unresolved : ℕ
  pub recent_events : List EventSummary

-- `counts[k] += 1` for the key of each event.
unfoldable pub count_by : (ThreatEvent → String) → List ThreatEvent → Dict ℕ → Dict ℕ
count_by key [] d = d
count_by key (e ∷ es) d = count_by key es (insert (key e) (count_at (key e) d + 1) d)

abbrev pub summary_of : ThreatEvent → EventSummary
summary_of e = record {
  event_id = e.event_id;
  type = type_value e.threat_type;
  level = level_value e.level;
  user_id = e.user_id;
  timestamp = e.timestamp;
}

-- `xs[-n:]` for a positive `n`.
abbrev pub last_items : {A : Type 0} → ℕ → List A → List A
last_items n xs = drop (length xs - n) xs

-- No time lies before 0, so a cut-off below 0 is 0.
unfoldable pub get_threat_summary : ℕ → ℕ → ThreatDetector → ThreatSummary
unfolding count_by type_value level_value
get_threat_summary now time_window s =
    let recent = select (λ e. leb (now - time_window * second) e.timestamp) s.threat_events in
    record {
      total_threats = length recent;
      time_window_seconds = time_window;
      by_type = count_by (λ e. type_value e.threat_type) recent [];
      by_level = count_by (λ e. level_value e.level) recent [];
      unresolved = length (select (λ e. not e.resolved) recent);
      recent_events = map summary_of (last_items 10 recent);
    }

abbrev pub mark_resolved : ℕ → String → ThreatEvent → ThreatEvent
mark_resolved now note e = record e {
  resolved = true;
  details = insert "resolved_at" (time now) (insert "resolution_note" (text note) e.details);
}

-- The first event of that id is resolved.
unfoldable pub resolve_first : ℕ → String → String → List ThreatEvent → Bool × List ThreatEvent
resolve_first now event_id note [] = (false, [])
resolve_first now event_id note (e ∷ es) =
    let rest = resolve_first now event_id note es in
    if e.event_id == event_id then (true, mark_resolved now note e ∷ es) else (rest.0, e ∷ rest.1)

unfoldable pub resolve_threat : ℕ → String → String → ThreatDetector → Bool × ThreatDetector
unfolding resolve_first
resolve_threat now event_id note s =
    let done = resolve_first now event_id note s.threat_events in
    (done.0, record s { threat_events = done.1 })

pub data ResponseAction : Type 0 where
  block_ip : (ip_address duration : String) → ResponseAction
  lock_user : (user_id reason : String) → ResponseAction
  send_alert : (type message : String) → ResponseAction
  enhanced_monitoring : (user_id ip_address : String) → ResponseAction

pub record Response : Type 0 where
  pub threat_id : String
  pub response_actions : List ResponseAction
  pub timestamp : ℕ

-- `value or ""`
abbrev pub or_empty : Option String → String
or_empty none = ""
or_empty (some s) = s

abbrev pub is_given : Option String → Bool
is_given o = not (or_empty o == "")

-- The actions for a high or critical threat.
unfoldable pub immediate_actions : ThreatEvent → List ResponseAction
unfolding type_value
immediate_actions e =
    (if is_given e.ip_address then block_ip (or_empty e.ip_address) "24_hours" ∷ [] else [])
    ++ (if is_given e.user_id
        then lock_user (or_empty e.user_id) ("Threat detected: " ^ type_value e.threat_type)
          ∷ send_alert "security_team"
              ("Critical security threat detected: " ^ type_value e.threat_type)
          ∷ []
        else [])

unfoldable pub actions_for : ThreatLevel → ThreatEvent → List ResponseAction
unfolding immediate_actions
actions_for high e = immediate_actions e
actions_for critical e = immediate_actions e
actions_for medium e = enhanced_monitoring (or_empty e.user_id) (or_empty e.ip_address) ∷ []
actions_for low e = []

unfoldable pub auto_respond_to_threat : ℕ → ThreatEvent → Response
unfolding actions_for
auto_respond_to_threat now e = record {
  threat_id = e.event_id;
  response_actions = actions_for e.level e;
  timestamp = now;
}

-- The patterns that a baseline is made of; a missing one is empty or 0.
pub record Patterns : Type 0 where
  pub login_hours : Option (List ℕ)
  pub ip_addresses : Option (List String)
  pub data_access_rate : Option ℕ

abbrev pub or_else : {A : Type 0} → A → Option A → A
or_else a none = a
or_else a (some b) = b

unfoldable pub establish_baseline : ℕ → String → Patterns → ThreatDetector → ThreatDetector
establish_baseline now user_id p s = record s {
  baseline_patterns =
      insert user_id
        (record {
          normal_login_hours = or_else [] p.login_hours;
          usual_ip_addresses = or_else [] p.ip_addresses;
          average_data_access = or_else 0 p.data_access_rate;
          created_at = now;
        })
        s.baseline_patterns;
}

-- Hour 0 and a missing hour are not looked at, nor is anything against an empty list.
abbrev pub hour_differs : Option ℕ → List ℕ → Bool
hour_differs none hours = false
hour_differs (some h) [] = false
hour_differs (some h) (x ∷ hours) = not (nat_eq h 0) && not (contains h (x ∷ hours))

abbrev pub ip_differs : Option String → List String → Bool
ip_differs ip [] = false
ip_differs ip (x ∷ ips) = is_given ip && not (contains (or_empty ip) (x ∷ ips))

unfoldable pub is_baseline_anomaly : String → Option ℕ → Option String → ThreatDetector → Bool
is_baseline_anomaly user_id hour ip s = elim (lookup user_id s.baseline_patterns) [
  | none ↦ false
  | some b ↦ hour_differs hour b.normal_login_hours || ip_differs ip b.usual_ip_addresses
]
