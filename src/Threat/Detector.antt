-- ===== src/Threat/Detector.antt =====
-- `ThreatDetector` of core/threat_detection.py: the detections. `now` is what `time.time()` gives a
-- method first, `stamped` what it gives the new event's `timestamp`.
use bt_api_security.Prelude.{
  String, ℕ, ◌+◌, ◌-◌, ◌*◌, Bool, false, ◌&&◌, ◌||◌, Option, none, some, List, [], ◌∷◌, ◌++◌, ltb,
  leb, if◌then◌else◌, nat_Eq, string_Eq, length, drop, any, select, second, whole_seconds,
  LocalTime,
}
use bt_api_security.Prelude.Decimal.{decimal}
use bt_api_security.Dict.{Dict, lookup, insert}
use bt_api_security.Threat.Types.{
  medium, high, critical, brute_force, suspicious_login, anomalous_traffic, data_exfiltration,
  unauthorized_access, Detail, text, number, ThreatEvent, Thresholds, ThreatDetector,
}
use bt_api_security.Prelude.Text.{◌^◌, ends_with}

abbrev pub default_thresholds : Thresholds
default_thresholds = record {
  failed_login_threshold = 5;
  suspicious_ip_threshold = 10;
  data_access_threshold = 1000;
}

-- `__init__`, with the thresholds of the configuration, if it has them.
unfoldable pub init : Option Thresholds → ThreatDetector
init configured = record {
  thresholds = elim configured [ none ↦ default_thresholds | some t ↦ t ];
  failed_logins = [];
  suspicious_ips = [];
  data_access_patterns = [];
  threat_events = [];
  baseline_patterns = [];
}

-- The value of a `defaultdict`.
abbrev pub times_at : String → Dict (List ℕ) → List ℕ
times_at k d = elim (lookup k d) [ none ↦ [] | some ts ↦ ts ]

abbrev pub count_at : String → Dict ℕ → ℕ
count_at k d = elim (lookup k d) [ none ↦ 0 | some n ↦ n ]

-- `deque(maxlen=100).append`: the oldest item goes when there are more than 100.
unfoldable pub push_recent : ℕ → List ℕ → List ℕ
push_recent t ts = let all_times = ts ++ t ∷ [] in drop (length all_times - 100) all_times

-- `now - t < seconds`
abbrev pub within : ℕ → ℕ → ℕ → Bool
within seconds now t = ltb now (t + seconds * second)

unfoldable pub recent_count : ℕ → List ℕ → ℕ
recent_count now ts = length (select (within 300 now) ts)

-- The other keys of the address that have a failure in the last five minutes.
unfoldable pub ip_failures : ℕ → String → Dict (List ℕ) → ℕ
unfolding ends_with
ip_failures now ip d = length (select (λ e. ends_with (":" ^ ip) e.0 && any (within 300 now) e.1) d)

abbrev pub report : ThreatEvent → ThreatDetector → ThreatDetector
report e s = record s { threat_events = s.threat_events ++ e ∷ [] }

unfoldable pub brute_force_event : ℕ → ℕ → String → String → ℕ → ℕ → ThreatEvent
unfolding decimal
brute_force_event now stamped user_id ip recent total = record {
  event_id = "brute_force_" ^ decimal (whole_seconds now);
  threat_type = brute_force;
  level = if ltb 10 total then high else medium;
  user_id = some user_id;
  ip_address = some ip;
  details =
      ("failed_attempts", number recent)
      ∷ ("total_ip_failures", number total)
      ∷ ("time_window", text "5_minutes")
      ∷ [];
  timestamp = stamped;
  resolved = false;
}

-- The failure is noted before it is judged.
unfoldable pub note_failure : ℕ → String → String → ThreatDetector → ThreatDetector
unfolding push_recent
note_failure now user_id ip s =
    let key = user_id ^ ":" ^ ip in
    record s {
      failed_logins = insert key (push_recent now (times_at key s.failed_logins)) s.failed_logins;
    }

unfoldable pub judge_failures :
    ℕ → ℕ → String → String → ThreatDetector → Option ThreatEvent × ThreatDetector
unfolding recent_count ip_failures brute_force_event
judge_failures now stamped user_id ip s =
    let recent = recent_count now (times_at (user_id ^ ":" ^ ip) s.failed_logins) in
    let event =
      brute_force_event now stamped user_id ip recent (ip_failures now ip s.failed_logins) in
    if leb s.thresholds.failed_login_threshold recent
    then (some event, report event s)
    else (none, s)

unfoldable pub detect_failed_login :
    ℕ → ℕ → String → String → ThreatDetector → Option ThreatEvent × ThreatDetector
unfolding note_failure judge_failures
detect_failed_login now stamped user_id ip s =
    judge_failures now stamped user_id ip (note_failure now user_id ip s)

unfoldable pub access_event : ℕ → ℕ → String → String → String → ℕ → ThreatEvent
unfolding decimal
access_event now stamped user_id resource ip recent = record {
  event_id = "anomalous_access_" ^ decimal (whole_seconds now);
  threat_type = anomalous_traffic;
  level = medium;
  user_id = some user_id;
  ip_address = some ip;
  details =
      ("access_count", number recent)
      ∷ ("resource", text resource)
      ∷ ("time_window", text "1_hour")
      ∷ [];
  timestamp = stamped;
  resolved = false;
}

-- The access is added, and what is an hour old is dropped.
unfoldable pub note_access : ℕ → String → ThreatDetector → ThreatDetector
note_access now user_id s = record s {
  data_access_patterns =
      insert user_id
        (select (within 3600 now) (times_at user_id s.data_access_patterns ++ now ∷ []))
        s.data_access_patterns;
}

unfoldable pub detect_suspicious_access_pattern :
    ℕ → ℕ → String → String → String → ThreatDetector → Option ThreatEvent × ThreatDetector
unfolding note_access access_event
detect_suspicious_access_pattern now stamped user_id resource ip s =
    let noted = note_access now user_id s in
    let recent = length (times_at user_id noted.data_access_patterns) in
    let event = access_event now stamped user_id resource ip recent in
    if ltb s.thresholds.data_access_threshold recent
    then (some event, report event noted)
    else (none, noted)

-- `{**d, **more}`
unfoldable pub merge : Dict Detail → Dict Detail → Dict Detail
merge d [] = d
merge d ((k, v) ∷ more) = merge (insert k v d) more

unfoldable pub unauthorized_event :
    ℕ → ℕ → String → String → String → Dict Detail → ℕ → Thresholds → ThreatEvent
unfolding merge decimal
unauthorized_event now stamped user_id resource ip details count thresholds = record {
  event_id = "unauthorized_" ^ decimal (whole_seconds now);
  threat_type = unauthorized_access;
  level = if ltb thresholds.suspicious_ip_threshold count then critical else high;
  user_id = some user_id;
  ip_address = some ip;
  details =
      merge (("resource", text resource) ∷ ("suspicious_ip_count", number count) ∷ []) details;
  timestamp = stamped;
  resolved = false;
}

unfoldable pub detect_unauthorized_access_attempt :
    ℕ → ℕ → String → String → String → Dict Detail → ThreatDetector → ThreatEvent × ThreatDetector
unfolding unauthorized_event
detect_unauthorized_access_attempt now stamped user_id resource ip details s =
    let count = count_at ip s.suspicious_ips + 1 in
    let event = unauthorized_event now stamped user_id resource ip details count s.thresholds in
    (event, report event (record s { suspicious_ips = insert ip count s.suspicious_ips }))

-- `local_time` gives the host's local time.
unfoldable pub analyze_login_anomaly :
    (ℕ → LocalTime)
    → ℕ
    → ℕ
    → String
    → String
    → String
    → ThreatDetector
    → Option ThreatEvent × ThreatDetector
unfolding decimal
analyze_login_anomaly local_time now stamped user_id ip user_agent s =
    let hour = (local_time now).hour in
    let event : ThreatEvent = record {
      event_id = "suspicious_login_" ^ decimal (whole_seconds now);
      threat_type = suspicious_login;
      level = medium;
      user_id = some user_id;
      ip_address = some ip;
      details =
          ("login_hour", number hour)
          ∷ ("user_agent", text user_agent)
          ∷ ("reason", text "unusual_login_time")
          ∷ [];
      timestamp = stamped;
      resolved = false;
    } in
    if ltb hour 6 || ltb 22 hour then (some event, report event s) else (none, s)

abbrev pub large_data_threshold : ℕ
large_data_threshold = 100 * 1024 * 1024

unfoldable pub detect_data_exfiltration :
    ℕ → ℕ → String → ℕ → String → ThreatDetector → Option ThreatEvent × ThreatDetector
unfolding decimal
detect_data_exfiltration now stamped user_id data_size resource s =
    let event : ThreatEvent = record {
      event_id = "data_exfil_" ^ decimal (whole_seconds now);
      threat_type = data_exfiltration;
      level = high;
      user_id = some user_id;
      ip_address = none;
      details =
          ("data_size", number data_size)
          ∷ ("resource", text resource)
          ∷ ("threshold", number large_data_threshold)
          ∷ [];
      timestamp = stamped;
      resolved = false;
    } in
    if ltb large_data_threshold data_size then (some event, report event s) else (none, s)
