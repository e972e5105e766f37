-- ===== src/Audit/Logger.antt =====
-- `AuditLogger` of core/audit_logger.py: opening, logging, subscribers, verification, clean-up.
use bt_api_security.Prelude.{
  remove_first, String, ℕ, ◌+◌, ◌-◌, ◌*◌, Bool, true, not, ◌&&◌, Option, none, some, List, [], ◌∷◌,
  ◌++◌, map, leb, take, if◌then◌else◌, nat_Eq, string_Eq, length, select, contains, ok, err, Exec,
  ◌>>=◌, ◌>>◌, pure, gets, modify, raise_if, second,
}
use bt_api_security.Audit.Types.{
  EventType, order_created, order_modified, order_cancelled, order_executed, trade_settled,
  data_accessed, data_exported, data_deleted, user_login, payment_processed, balance_adjustment,
  account_creation, event_type_Eq, AuditEvent, Json, truthy, same_text, calculate_hash,
  verify_integrity, line_of, load,
}

-- `file` holds the lines of the log file, if it exists; `notified` the calls of subscribers.
pub record AuditLogger (Line : Type 0) : Type 0 where
  pub file : Option (List Line)
  pub retention_days : ℕ
  pub enable_real_time : Bool
  pub last_hash : Option String
  pub events : List AuditEvent
  pub subscribers : List String
  pub notified : List (String × AuditEvent)

pub data AuditError : Type 0 where
  write_failed cleanup_failed : AuditError

-- `_add_compliance_tags`
abbrev pub tags_of : EventType → List String
tags_of t =
    (if contains t (order_created ∷ order_executed ∷ trade_settled ∷ balance_adjustment ∷ [])
      then "SOX" ∷ []
      else [])
    ++ (if contains t (order_created ∷ order_modified ∷ order_cancelled ∷ order_executed ∷ [])
        then "MIFID_II" ∷ []
        else [])
    ++ (if contains t (payment_processed ∷ account_creation ∷ data_accessed ∷ [])
        then "PCI_DSS" ∷ []
        else [])
    ++ (if contains t (data_accessed ∷ data_exported ∷ data_deleted ∷ user_login ∷ [])
        then "GDPR" ∷ []
        else [])

unfoldable pub add_compliance_tags : AuditEvent → AuditEvent
add_compliance_tags e = record e { compliance_tags = e.compliance_tags ++ tags_of e.event_type }

abbrev pub lines_of : {Line : Type 0} → Option (List Line) → List Line
lines_of none = []
lines_of (some ls) = ls

abbrev pub last_line : {Line : Type 0} → List Line → Option Line
last_line [] = none
last_line (l ∷ []) = some l
last_line (l ∷ m ∷ ls) = last_line (m ∷ ls)

-- What the check of a log may report.
pub data Violation : Type 0 where
  chain_hash_mismatch : (line : ℕ) (event_id : String) (expected actual : Option String) → Violation
  event_hash_mismatch : (line : ℕ) (event_id : String) → Violation
  parse_error : (line : ℕ) → Violation
  file_read_error : Violation

pub data IntegrityReport : Type 0 where
  no_log_file : IntegrityReport
  checked :
      (status : String) (verified_events : ℕ) (violations : List Violation)
      (last_hash : Option String)
      → IntegrityReport

-- The variables of the loop of `verify_log_integrity`.
pub record Progress : Type 0 where
  pub verified_count : ℕ
  pub violations : List Violation
  pub previous_hash : Option String

abbrev pub status_of : List Violation → String
status_of [] = "verified"
status_of (v ∷ vs) = "violations_found"

module _ {Line : Type 0} (json : Json Line) where
  -- The hash that `_load_last_hash` takes from the last line.
  abbrev pub last_hash_of : Option Line → Option String
  last_hash_of none = none
  last_hash_of (some l) = if json.is_blank l then none else json.hash_field l

  -- `__init__` with `_load_last_hash`, on a path that holds `file`.
  unfoldable pub open_logger : Option (List Line) → ℕ → Bool → AuditLogger Line
  open_logger file retention_days enable_real_time = record {
    file = file;
    retention_days = retention_days;
    enable_real_time = enable_real_time;
    last_hash = last_hash_of (last_line (lines_of file));
    events = [];
    subscribers = [];
    notified = [];
  }

  -- `_write_event_atomic`; `writes` tells whether the file system does what it is asked to.
  unfoldable pub write_event : Bool → Line → Exec AuditError (AuditLogger Line) (Unit {0})
  write_event writes line = do
    raise_if (not writes) write_failed
    modify (λ s. record s { file = some (lines_of s.file ++ line ∷ []) })

  -- `_notify_subscribers`: what a callback raises is dropped.
  unfoldable pub notify_subscribers : AuditEvent → Exec AuditError (AuditLogger Line) (Unit {0})
  notify_subscribers e =
      modify (λ s. record s { notified = s.notified ++ map (λ c. (c, e)) s.subscribers })

  -- The event as it is written.
  unfoldable pub sealed : Option String → AuditEvent → AuditEvent
  unfolding add_compliance_tags calculate_hash
  sealed previous e =
      let tagged = add_compliance_tags (record e { previous_hash = previous }) in
      record tagged { event_hash = some (calculate_hash json tagged) }

  unfoldable pub log_event : Bool → AuditEvent → Exec AuditError (AuditLogger Line) AuditEvent
  unfolding write_event notify_subscribers sealed
  log_event writes e = do
    previous ← gets (λ s. s.last_hash)
    let event = sealed previous e
    write_event writes (line_of json event)
    modify (λ s. record s { last_hash = event.event_hash; events = s.events ++ event ∷ [] })
    real_time ← gets (λ s. s.enable_real_time)
    if real_time then notify_subscribers event else pure tt
    pure event

  unfoldable pub subscribe : String → AuditLogger Line → AuditLogger Line
  subscribe callback s = record s { subscribers = s.subscribers ++ callback ∷ [] }

  unfoldable pub unsubscribe : String → AuditLogger Line → AuditLogger Line
  unsubscribe callback s =
      if contains callback s.subscribers
      then record s { subscribers = remove_first callback s.subscribers }
      else s

  unfoldable pub check_chain : ℕ → Option String → AuditEvent → List Violation
  check_chain n previous e =
      if truthy previous && not (same_text e.previous_hash previous)
      then chain_hash_mismatch n e.event_id previous e.previous_hash ∷ []
      else []

  unfoldable pub check_event : ℕ → AuditEvent → List Violation
  check_event n e = if verify_integrity json e then [] else event_hash_mismatch n e.event_id ∷ []

  unfoldable pub verify_event : ℕ → Option AuditEvent → Progress → Progress
  unfolding check_chain check_event
  verify_event n none v = record v { violations = v.violations ++ parse_error n ∷ [] }
  verify_event n (some e) v = record {
    verified_count = v.verified_count + 1;
    violations = v.violations ++ check_chain n v.previous_hash e ++ check_event n e;
    previous_hash = e.event_hash;
  }

  unfoldable pub verify_lines : ℕ → List Line → Progress → Progress
  unfolding verify_event
  verify_lines n [] v = v
  verify_lines n (l ∷ ls) v =
      verify_lines (n + 1) ls (if json.is_blank l then v else verify_event n (load json l) v)

  abbrev pub start : Progress
  start = record { verified_count = 0; violations = []; previous_hash = none }

  abbrev report : Progress → IntegrityReport
  report v = checked (status_of v.violations) v.verified_count v.violations v.previous_hash

  -- The loop over the file; `fails_after` gives the number of lines after which reading the file
  -- raises, if it does.
  unfoldable pub verify_file : Option ℕ → List Line → Progress
  unfolding verify_lines
  verify_file none lines = verify_lines 1 lines start
  verify_file (some n) lines =
      let v = verify_lines 1 (take n lines) start in
      record v { violations = v.violations ++ file_read_error ∷ [] }

  unfoldable pub verify_log_integrity : Option ℕ → AuditLogger Line → IntegrityReport
  unfolding verify_file
  verify_log_integrity fails_after s = elim s.file [
    | none ↦ no_log_file
    | some lines ↦ report (verify_file fails_after lines)
  ]

  -- Whether `cleanup_old_events` writes a line to the new file.
  unfoldable pub is_kept : ℕ → Option AuditEvent → Bool
  is_kept cutoff none = true
  is_kept cutoff (some e) = leb cutoff e.timestamp

  -- `cutoff` is at least 0, like every time.
  unfoldable pub cleanup_old_events : ℕ → Bool → Exec AuditError (AuditLogger Line) ℕ
  unfolding is_kept
  cleanup_old_events now works s = elim s.file [
    | none ↦ (ok 0, s)
    | some lines ↦
        let cutoff = now - s.retention_days * 86400 * second in
        let written = select (λ l. not (json.is_blank l)) lines in
        let kept = select (λ l. is_kept cutoff (load json l)) written in
        if works
        then (ok (length written - length kept), record s { file = some kept })
        else (err cleanup_failed, s)
  ]
