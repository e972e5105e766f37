-- ===== src/Audit/Tests.antt =====
-- Runs of core/audit_logger.py, where a line of the file is the dictionary that it stands for.
use bt_api_security.Prelude.{
  String, ℕ, ◌<◌, ◌≡◌, refl, ◌≢◌, ◌⊎◌, inl, inr, true, false, Option, none, some, List, [], ◌∷◌,
  arith, eq_iff, nat_Eq, string_Eq, length, select,
}
use bt_api_security.Audit.Types.{
  EventType, user_login, order_created, data_deleted, event_type_Eq, EventType-discrete, medium,
  AuditEvent, Json, IsFaithful, calculate_hash, same_text, load, EventDict, to_dict, from_dict,
  type_from, severity_from, event_type_of, severity_of,
}
use bt_api_security.Audit.Logger.{
  AuditLogger, no_log_file, checked, lines_of, open_logger, log_event, verify_log_integrity,
}
use bt_api_security.Audit.Queries.{Filters, matches, search_events}
use bt_api_security.Audit.Chain.{IsChain, here, next, log_step, restart_step}
use bt_api_security.Audit.Integrity.{log_verifies, deletion_verifies}
use bt_api_security.Audit.Logger.{Violation, event_hash_mismatch}
use bt_api_security.Audit.Tampering.{IsAmong, changed_reported}
use bt_api_security.Audit.Search.{IsNewestFirst, readable, search_events_complete}

abbrev json : Json EventDict
json = record {
  encode = λ d. d;
  decode = some;
  is_blank = λ d. false;
  hash_field = λ d. d.event_hash;
  digest = λ e. e.event_id;
}

abbrev faithful : IsFaithful json
faithful = record {
  decode_encode = λ d. refl;
  not_blank = λ d. refl;
  hash_field_encode = λ d. refl;
}

abbrev event : String → ℕ → EventType → AuditEvent
event id t type = record {
  event_id = id;
  timestamp = t;
  event_type = type;
  severity = medium;
  user_id = some "ann";
  session_id = none;
  ip_address = none;
  user_agent = none;
  resource = none;
  action = none;
  outcome = "success";
  details = [];
  compliance_tags = [];
  previous_hash = none;
  event_hash = none;
}

abbrev opened : AuditLogger EventDict
opened = open_logger json none 30 true

abbrev logged : AuditLogger EventDict
logged =
    (log_event json true (event "b" 20 order_created)
      (open_logger json (log_event json true (event "a" 10 user_login) opened).1.file 30 false)).1

log_verifies_example :
    (verify_log_integrity json none logged ≡ no_log_file)
    ⊎ ((n : ℕ) × (last : Option String) × (verify_log_integrity json none logged
          ≡ checked "verified" n [] last)
        × (logged.last_hash ≡ last)
        × (n ≡ length (lines_of logged.file)))
log_verifies_example = log_verifies json faithful 30 true logged (
    next (next (next here (log_step true (event "a" 10 user_login))) (restart_step 30 false))
      (log_step true (event "b" 20 order_created)))

-- An event with its hash, after the event with the hash `previous`.
abbrev link : Option String → AuditEvent → AuditEvent
link previous e = record e { previous_hash = previous; event_hash = some e.event_id }

abbrev first : AuditEvent
first = link none (event "a" 10 user_login)

abbrev gone : AuditEvent
gone = link (some "a") (event "b" 20 data_deleted)

abbrev after : AuditEvent
after = link (some "b") (event "c" 30 order_created)

abbrev tampered : AuditLogger EventDict
tampered = record opened {
  file = some (to_dict first ∷ to_dict (record after { previous_hash = some "a" }) ∷ []);
}

chain : IsChain json none (first ∷ gone ∷ after ∷ [])
unfolding calculate_hash
chain = (inl refl, refl, (inr refl, refl, (inr refl, refl, tt)))

deletion_verifies_example :
    (n : ℕ) × (last : Option String) × (verify_log_integrity json none tampered
      ≡ checked "verified" n [] last)
deletion_verifies_example =
    deletion_verifies json faithful (first ∷ []) gone after [] tampered chain refl

abbrev orders : Filters
orders = record {
  event_type = some order_created;
  user_id = some "ann";
  start_time = none;
  end_time = none;
}

few_orders : length (select (matches orders) (readable json (lines_of tampered.file))) < 1000
unfolding matches EventType-discrete same_text load open_logger from_dict to_dict type_from
    severity_from event_type_of severity_of
few_orders = omega arith

search_events_complete_example :
    IsNewestFirst (search_events json orders 1000 tampered)
    × (length (select (λ e. true) (search_events json orders 1000 tampered))
        ≡ length
            (select (λ e. true) (select (matches orders) (readable json (lines_of tampered.file)))))
search_events_complete_example =
    search_events_complete json orders 1000 tampered (λ e. true) few_orders

-- The first event with another id, and the hash it had.
abbrev forged : AuditEvent
forged = record first { event_id = "z" }

abbrev changed_log : AuditLogger EventDict
changed_log = record opened { file = some (to_dict gone ∷ to_dict forged ∷ to_dict after ∷ []) }

forged_hash : forged.event_hash ≢ some (calculate_hash json forged)
unfolding calculate_hash
forged_hash = λ e. ground (arith, eq_iff "a" "z")

changed_reported_example :
    (n : ℕ) × (vs : List Violation) × (last : Option String) × (verify_log_integrity json none
        changed_log
      ≡ checked "violations_found" n vs last)
    × IsAmong (event_hash_mismatch 2 "z") vs
changed_reported_example =
    changed_reported json faithful forged refl forged_hash (to_dict gone ∷ []) (to_dict after ∷ [])
      changed_log refl
