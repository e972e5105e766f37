-- ===== src/Threat/FailedLogins.antt =====
-- Repeated failed logins in core/threat_detection.py: what is remembered, and when it is reported.
use bt_api_security.Prelude.{
  String, ℕ, ◌-◌, ◌≤◌, ◌<◌, ◌≡◌, refl, sym, ap, ◌∙◌, inl, inr, Bool, none, some, List, [], ◌∷◌,
  ◌++◌, arith, ltb, Bool-cases, Option-cases, nat_Eq, string_Eq, length, select, length-drop,
  length-select-le, LocalTime,
}
use bt_api_security.Dict.{Dict, lookup}
use bt_api_security.Dict.Laws.{lookup-insert-cases}
use bt_api_security.Threat.Types.{Thresholds, Detail, ThreatDetector}
use bt_api_security.Threat.Detector.{
  init, times_at, push_recent, within, recent_count, note_failure, judge_failures,
  detect_failed_login, detect_suspicious_access_pattern, note_access,
  detect_unauthorized_access_attempt, analyze_login_anomaly, detect_data_exfiltration,
}
use bt_api_security.Prelude.Text.{◌^◌}
use bt_api_security.Threat.Responses.{resolve_threat, establish_baseline, Patterns}

-- At most 100 failures are remembered for a key.
pub record IsBounded (s : ThreatDetector) : Type 0 where
  pub at_most : (k : String) (ts : List ℕ) → lookup k s.failed_logins ≡ some ts → length ts ≤ 100

length-push_recent : (t : ℕ) (ts : List ℕ) → length (push_recent t ts) ≤ 100
unfolding push_recent
length-push_recent t ts = omega (arith, length-drop (length (ts ++ t ∷ []) - 100) (ts ++ t ∷ []))

note_failure-IsBounded :
    (now : ℕ) (user_id ip : String) (s : ThreatDetector)
    → IsBounded s
    → IsBounded (note_failure now user_id ip s)
unfolding note_failure
note_failure-IsBounded now user_id ip s b = record {
  at_most = λ k ts h.
      elim (lookup-insert-cases (user_id ^ ":" ^ ip) k
        (push_recent now (times_at (user_id ^ ":" ^ ip) s.failed_logins)) s.failed_logins h) [
          | inl (same, e) ↦
              rw e (length-push_recent now (times_at (user_id ^ ":" ^ ip) s.failed_logins))
          | inr old ↦ b.at_most k ts old
        ];
}

select-le :
    {A : Type 0} (p : A → Bool) (xs : List A) (n : ℕ) → length xs ≤ n → length (select p xs) ≤ n
select-le p xs n h = omega (arith, length-select-le p xs)

length-times_at :
    (k : String) (s : ThreatDetector) → IsBounded s → length (times_at k s.failed_logins) ≤ 100
length-times_at k s b = elim (Option-cases (lookup k s.failed_logins)) [
  | inl missing ↦ rw (missing, times_at) (omega arith)
  | inr (ts, found) ↦ rw (found, times_at) (b.at_most k ts found)
]

recent_count-le :
    (now : ℕ) (k : String) (s : ThreatDetector)
    → IsBounded s
    → recent_count now (times_at k s.failed_logins) ≤ 100
unfolding recent_count
recent_count-le now k s b =
    select-le (within 300 now) (times_at k s.failed_logins) 100 (length-times_at k s b)

-- The calls that change a detector.
pub data Step (s : ThreatDetector) : ThreatDetector → Type 0 where
  failed_login_step :
      (now stamped : ℕ) (user_id ip : String)
      → Step s (detect_failed_login now stamped user_id ip s).1
  access_step :
      (now stamped : ℕ) (user_id resource ip : String)
      → Step s (detect_suspicious_access_pattern now stamped user_id resource ip s).1
  unauthorized_step :
      (now stamped : ℕ) (user_id resource ip : String) (details : Dict Detail)
      → Step s (detect_unauthorized_access_attempt now stamped user_id resource ip details s).1
  login_step :
      (local_time : ℕ → LocalTime) (now stamped : ℕ) (user_id ip agent : String)
      → Step s (analyze_login_anomaly local_time now stamped user_id ip agent s).1
  transfer_step :
      (now stamped : ℕ) (user_id : String) (size : ℕ) (resource : String)
      → Step s (detect_data_exfiltration now stamped user_id size resource s).1
  resolve_step : (now : ℕ) (event_id note : String) → Step s (resolve_threat now event_id note s).1
  baseline_step :
      (now : ℕ) (user_id : String) (p : Patterns) → Step s (establish_baseline now user_id p s)

pub data Reach (s : ThreatDetector) : ThreatDetector → Type 0 where
  here : Reach s s
  next : {t u : ThreatDetector} → Reach s t → Step t u → Reach s u

-- Only a failed login writes the failures.
same-IsBounded :
    (s t : ThreatDetector) → t.failed_logins ≡ s.failed_logins → IsBounded s → IsBounded t
same-IsBounded s t e b = record { at_most = λ k ts h. b.at_most k ts (ap (lookup k) (sym e) ∙ h) }

judge_failures-keeps :
    (now stamped : ℕ) (user_id ip : String) (s : ThreatDetector)
    → (judge_failures now stamped user_id ip s).1.failed_logins ≡ s.failed_logins
unfolding judge_failures
judge_failures-keeps now stamped user_id ip s = ground arith

detect_access-keeps :
    (now stamped : ℕ) (user_id resource ip : String) (s : ThreatDetector)
    → (detect_suspicious_access_pattern now stamped user_id resource ip s).1.failed_logins
      ≡ s.failed_logins
unfolding detect_suspicious_access_pattern note_access
detect_access-keeps now stamped user_id resource ip s =
    elim (Bool-cases (
      ltb s.thresholds.data_access_threshold
        (length (times_at user_id (note_access now user_id s).data_access_patterns)))) [
          | inl many ↦ rw many refl
          | inr few ↦ rw few refl
        ]

Step-IsBounded : {s t : ThreatDetector} → Step s t → IsBounded s → IsBounded t
unfolding detect_failed_login detect_unauthorized_access_attempt resolve_threat establish_baseline
    analyze_login_anomaly detect_data_exfiltration
Step-IsBounded {s} (failed_login_step now stamped user_id ip) b =
    same-IsBounded (note_failure now user_id ip s) _
      (judge_failures-keeps now stamped user_id ip (note_failure now user_id ip s))
      (note_failure-IsBounded now user_id ip s b)
Step-IsBounded {s} (access_step now stamped user_id resource ip) b =
    same-IsBounded s _ (detect_access-keeps now stamped user_id resource ip s) b
Step-IsBounded {s} (unauthorized_step now stamped user_id resource ip details) b =
    same-IsBounded s _ refl b
Step-IsBounded {s} (login_step local_time now stamped user_id ip agent) b =
    same-IsBounded s _ (ground arith) b
Step-IsBounded {s} (transfer_step now stamped user_id size resource) b =
    same-IsBounded s _ (ground arith) b
Step-IsBounded {s} (resolve_step now event_id note) b = same-IsBounded s _ refl b
Step-IsBounded {s} (baseline_step now user_id p) b = same-IsBounded s _ refl b

Reach-IsBounded : {s t : ThreatDetector} → Reach s t → IsBounded s → IsBounded t
Reach-IsBounded here b = b
Reach-IsBounded (next r step) b = Step-IsBounded step (Reach-IsBounded r b)

judge_failures-quiet :
    (now stamped : ℕ) (user_id ip : String) (s : ThreatDetector)
    → recent_count now (times_at (user_id ^ ":" ^ ip) s.failed_logins)
      < s.thresholds.failed_login_threshold
    → (judge_failures now stamped user_id ip s).0 ≡ none
unfolding judge_failures
judge_failures-quiet now stamped user_id ip s few = ground arith

note_failure-thresholds :
    (now : ℕ) (user_id ip : String) (s : ThreatDetector)
    → (note_failure now user_id ip s).thresholds.failed_login_threshold
      ≡ s.thresholds.failed_login_threshold
unfolding note_failure
note_failure-thresholds now user_id ip s = refl

-- Since at most 100 failures are remembered, a detector with a threshold above 100 reports no
-- failed login, whatever was called before.
pub large_threshold_silent :
    (configured : Thresholds) (s : ThreatDetector) (now stamped : ℕ) (user_id ip : String)
    → Reach (init (some configured)) s
    → 100 < s.thresholds.failed_login_threshold
    → (detect_failed_login now stamped user_id ip s).0 ≡ none
unfolding detect_failed_login init lookup
large_threshold_silent configured s now stamped user_id ip r high =
    let noted = note_failure now user_id ip s in
    let bounded =
      note_failure-IsBounded now user_id ip s
        (Reach-IsBounded r (record { at_most = λ k ts h. absurd (ground arith) })) in
    let same_thresholds = note_failure-thresholds now user_id ip s in
    judge_failures-quiet now stamped user_id ip noted (
      let few = recent_count-le now (user_id ^ ":" ^ ip) noted bounded in
      omega (arith, few, high, same_thresholds))
