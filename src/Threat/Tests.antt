-- ===== src/Threat/Tests.antt =====
-- Runs of core/threat_detection.py.
use bt_api_security.Prelude.{
  ℕ, ◌+◌, ◌*◌, ◌≤◌, ◌<◌, ◌≡◌, refl, ◌≢◌, ◌↔◌, false, none, some, List, [], ◌∷◌, ◌++◌, arith, nat_Eq,
  string_Eq, length, All, second,
}
use bt_api_security.Dict.{lookup, insert}
use bt_api_security.Threat.Types.{ThreatEvent, Thresholds, ThreatDetector}
use bt_api_security.Threat.Detector.{times_at, push_recent, init, detect_failed_login}
use bt_api_security.Threat.FailedLogins.{here, next, failed_login_step, large_threshold_silent}
use bt_api_security.Threat.Detection.{failures_reported_iff, fail_each}
use bt_api_security.Threat.Resolution.{
  IsShadowed, resolve_each, same_second_unresolved, first_attempt, second_attempt,
}

abbrev start : ThreatDetector
start = init none

-- A failure that is long ago at `now`.
abbrev failed_before : ThreatDetector
failed_before = (detect_failed_login 1 1 "ann" "10.0.0.1" start).1

abbrev now : ℕ
now = 400 * second

earlier : All (λ t. t + 300 * second ≤ now) (times_at "ann:10.0.0.1" failed_before.failed_logins)
unfolding init lookup insert detect_failed_login push_recent
earlier = (omega arith, tt)

abbrev times : List ℕ
times = 300 * second ∷ 301 * second ∷ 302 * second ∷ []

recent : All (λ t. now < t + 300 * second) (times ++ now ∷ [])
recent = (omega arith, (omega arith, (omega arith, (omega arith, tt))))

-- Five failures, and the threshold is five; but one of them is long ago.
failures_reported_iff_example :
    (failed_before.thresholds.failed_login_threshold ≤ length times + 1) ↔ (
      (detect_failed_login now now "ann" "10.0.0.1"
        (fail_each "ann" "10.0.0.1" times failed_before)).0
      ≢ none)
failures_reported_iff_example =
    failures_reported_iff "ann" "10.0.0.1" times now now failed_before earlier recent (omega arith)

abbrev lax : Thresholds
lax = record {
  failed_login_threshold = 150;
  suspicious_ip_threshold = 10;
  data_access_threshold = 1000;
}

abbrev failed_once : ThreatDetector
failed_once = (detect_failed_login 1 1 "ann" "10.0.0.1" (init (some lax))).1

threshold_150 : failed_once.thresholds.failed_login_threshold ≡ 150
unfolding detect_failed_login init lookup insert
threshold_150 = refl

large_threshold_silent_example : (detect_failed_login 5 6 "ann" "10.0.0.1" failed_once).0 ≡ none
large_threshold_silent_example =
    large_threshold_silent lax failed_once 5 6 "ann" "10.0.0.1"
      (next here (failed_login_step 1 1 "ann" "10.0.0.1")) (omega (arith, threshold_150))

abbrev first : ThreatEvent × ThreatDetector
first =
    first_attempt start 1000000 1500000 1000001 1500001 "ann" "bob" "a" "b" "10.0.0.1" "10.0.0.2" []
      []

abbrev second_one : ThreatEvent × ThreatDetector
second_one =
    second_attempt start 1000000 1500000 1000001 1500001 "ann" "bob" "a" "b" "10.0.0.1" "10.0.0.2"
      [] []

same_second_unresolved_example :
    (first.0.event_id ≡ second_one.0.event_id)
    × (second_one.0.resolved ≡ false)
    × IsShadowed second_one.0
        (resolve_each second_one.0.event_id ((2000000, "done") ∷ []) second_one.1).threat_events
same_second_unresolved_example =
    same_second_unresolved start 1000000 1500000 1000001 1500001 "ann" "bob" "a" "b" "10.0.0.1"
      "10.0.0.2" [] [] ((2000000, "done") ∷ []) refl
