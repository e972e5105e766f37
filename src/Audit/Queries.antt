-- ===== src/Audit/Queries.antt =====
-- `search_events` and `get_compliance_report` of core/audit_logger.py.
use bt_api_security.Prelude.{
  String, ℕ, ◌+◌, Bool, true, not, ◌&&◌, ◌||◌, Option, none, some, List, [], ◌∷◌, ◌++◌, leb, nat_eq,
  if◌then◌else◌, ◌==◌, nat_Eq, string_Eq, length, take, select, contains, Result, ok, err,
}
use bt_api_security.Dict.{Dict, lookup, insert}
use bt_api_security.Audit.Types.{
  EventType, event_type_Eq, event_type_value, severity_name, AuditEvent, Json, truthy, same_text,
  load,
}
use bt_api_security.Audit.Logger.{AuditLogger}

pub record Filters : Type 0 where
  pub event_type : Option EventType
  pub user_id : Option String
  pub start_time : Option ℕ
  pub end_time : Option ℕ

abbrev pub has_type : Option EventType → AuditEvent → Bool
has_type none e = true
has_type (some t) e = e.event_type == t

abbrev pub has_user : Option String → AuditEvent → Bool
has_user user_id e = not (truthy user_id && not (same_text e.user_id user_id))

-- A bound of `None` or 0 is no bound.
abbrev pub not_before : Option ℕ → AuditEvent → Bool
not_before none e = true
not_before (some t) e = nat_eq t 0 || leb t e.timestamp

abbrev pub not_after : Option ℕ → AuditEvent → Bool
not_after none e = true
not_after (some t) e = nat_eq t 0 || leb e.timestamp t

unfoldable pub matches : Filters → AuditEvent → Bool
matches f e =
    has_type f.event_type e
    && has_user f.user_id e
    && not_before f.start_time e
    && not_after f.end_time e

-- `results.sort(key=timestamp, reverse=True)`: equal times keep their order.
abbrev pub insert_newest : AuditEvent → List AuditEvent → List AuditEvent
insert_newest e [] = e ∷ []
insert_newest e (x ∷ xs) =
    if leb x.timestamp e.timestamp then e ∷ x ∷ xs else x ∷ insert_newest e xs

unfoldable pub newest_first : List AuditEvent → List AuditEvent
newest_first [] = []
newest_first (e ∷ es) = insert_newest e (newest_first es)

-- `d[k] = d.get(k, 0) + 1`
abbrev pub count_of : Option ℕ → ℕ
count_of none = 0
count_of (some n) = n

unfoldable pub bump : String → Dict ℕ → Dict ℕ
bump k d = insert k (count_of (lookup k d) + 1) d

pub record Statistics : Type 0 where
  pub total_events : ℕ
  pub by_type : Dict ℕ
  pub by_severity : Dict ℕ
  pub by_outcome : Dict ℕ
  pub timeline : Dict ℕ

pub record ComplianceReport : Type 0 where
  pub standard : String
  pub start_date : Option String
  pub end_date : Option String
  pub statistics : Statistics
  pub events : List AuditEvent

-- `date_of` gives the host's date of a time.
unfoldable pub count_event : (ℕ → String) → AuditEvent → Statistics → Statistics
unfolding bump
count_event date_of e s = record s {
  by_type = bump (event_type_value e.event_type) s.by_type;
  by_severity = bump (severity_name e.severity) s.by_severity;
  by_outcome = bump e.outcome s.by_outcome;
  timeline = bump (date_of e.timestamp) s.timeline;
}

unfoldable pub count_events : (ℕ → String) → List AuditEvent → Statistics → Statistics
unfolding count_event
count_events date_of [] s = s
count_events date_of (e ∷ es) s = count_events date_of es (count_event date_of e s)

-- A date that `datetime.fromisoformat` refuses.
pub data DateError : Type 0 where
  invalid_date : String → DateError

-- The time stamp of an optional date; an empty text is no date.
unfoldable pub date_bound : (String → Option ℕ) → Option String → Result DateError (Option ℕ)
date_bound timestamp_of none = ok none
date_bound timestamp_of (some d) =
    if d == ""
    then ok none
    else elim (timestamp_of d) [ none ↦ err (invalid_date d) | some t ↦ ok (some t) ]

module _ {Line : Type 0} (json : Json Line) where
  -- The event that a line gives, if it is not blank.
  abbrev pub read_line : Line → Option AuditEvent
  read_line l = if json.is_blank l then none else load json l

  -- One line with the results so far, and the rest of the loop unless the limit is reached.
  abbrev pub collect :
      Filters
      → ℕ
      → Option AuditEvent
      → List AuditEvent
      → (List AuditEvent → List AuditEvent)
      → List AuditEvent
  collect f limit none results continue = continue results
  collect f limit (some e) results continue =
      if matches f e
      then (if leb limit (length (results ++ e ∷ []))
          then results ++ e ∷ []
          else continue (results ++ e ∷ []))
      else continue results

  unfoldable pub search_lines : Filters → ℕ → List Line → List AuditEvent → List AuditEvent
  search_lines f limit [] results = results
  search_lines f limit (l ∷ ls) results =
      collect f limit (read_line l) results (search_lines f limit ls)

  unfoldable pub search_events : Filters → ℕ → AuditLogger Line → List AuditEvent
  unfolding search_lines newest_first
  search_events f limit s = elim s.file [
    | none ↦ []
    | some lines ↦ newest_first (search_lines f limit lines [])
  ]

  unfoldable pub get_compliance_report :
      (ℕ → String)
      → (String → Option ℕ)
      → String
      → Option String
      → Option String
      → AuditLogger Line
      → Result DateError ComplianceReport
  unfolding date_bound search_events count_events
  get_compliance_report date_of timestamp_of standard start_date end_date s =
      elim (date_bound timestamp_of start_date) [
        | err e ↦ err e
        | ok start ↦ elim (date_bound timestamp_of end_date) [
          | err e ↦ err e
          | ok end ↦
              let all_events =
                search_events
                  (record { event_type = none; user_id = none; start_time = start; end_time = end })
                  10000 s in
              let compliant = select (λ e. contains standard e.compliance_tags) all_events in
              ok (record {
                standard = standard;
                start_date = start_date;
                end_date = end_date;
                statistics = count_events date_of compliant (record {
                  total_events = length compliant;
                  by_type = [];
                  by_severity = [];
                  by_outcome = [];
                  timeline = [];
                });
                events = take 100 compliant;
              })
        ]
      ]
