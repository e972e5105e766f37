-- ===== src/Framework/Tests.antt =====
-- Concrete runs of framework.py.
use bt_api_security.Prelude.{
  String, ℕ, ◌+◌, ◌≡◌, refl, Bool, true, false, none, some, ◌++◌, nat_Eq, string_Eq, Result, ok,
  err, Exec, LocalTime,
}
use mathlib.Core.Option
use bt_api_security.AccessControl.Types.{trading_accounts, read_level, AccessError}
use bt_api_security.AccessControl.Manager
use bt_api_security.AccessControl.Decisions.{IsPermitted}
use bt_api_security.Audit.Types.{EventDict, Json, data_accessed, medium}
use bt_api_security.Audit.Logger.{write_failed, open_logger}
use bt_api_security.Framework.Guards.{
  Security, Global, Failure, access, audit, Entry, run_alone, require_permission, audit_access,
}
use bt_api_security.Framework.Permitted.{guarded_call}
use bt_api_security.Framework.Audited.{actions, outcome, audited_outcome}

abbrev json : Json EventDict
json = record {
  encode = λ d. d;
  decode = some;
  is_blank = λ d. false;
  hash_field = λ d. d.event_hash;
  digest = λ e. e.event_id;
}

abbrev noon : ℕ → LocalTime
noon t = record { hour = 12; weekday = 2 }

abbrev security : Security EventDict
security = record {
  access_control = Manager.init (λ name. 0) (λ name. name) none;
  audit_logger = open_logger json none 30 false;
}

-- It counts its calls, and never raises.
abbrev count_call : Exec AccessError ℕ ℕ
count_call n = (ok n, n + 1)

abbrev world : Global EventDict ℕ
world = record { framework = some security; rest = 0 }

abbrev alone : Global EventDict ℕ
alone = record { framework = none; rest = 0 }

guarded_call_example :
    (IsPermitted noon 5 security.access_control "ann" trading_accounts "read" read_level none
      → require_permission noon 5 6 trading_accounts "read" read_level (some "ann") count_call world
        ≡ run_alone count_call 0 world)
    × (¬ IsPermitted noon 5 security.access_control "ann" trading_accounts "read" read_level none
        → (e : AccessError) × (require_permission noon 5 6 trading_accounts "read" read_level
              (some "ann")
              count_call
              world
            ≡ (err (access e), world)))
    × (require_permission noon 5 6 trading_accounts "read" read_level none count_call world
        ≡ run_alone count_call 0 world)
    × (require_permission noon 5 6 trading_accounts "read" read_level (some "ann") count_call alone
        ≡ run_alone count_call 0 alone)
guarded_call_example =
    guarded_call noon 5 6 "ann" "read" trading_accounts read_level count_call security 0 refl

abbrev entry : String → Bool → Entry
entry id writes = record { event_id = id; timestamp = 7; writes = writes }

-- The function returns, but its success cannot be written.
abbrev audited : Result (Failure AccessError) ℕ × Global EventDict ℕ
audited =
    audit_access json (entry "a" true) (entry "b" false) (entry "c" true) (λ e. "error") "f" "()"
      "{}" data_accessed medium none count_call world

audited_outcome_example :
    let table = outcome (count_call 0).0 false true in
    (true ≡ false → audited ≡ (err (audit write_failed), world))
    × (true ≡ true
        → (audited.0 ≡ table.0)
          × (audited.1.rest ≡ 1)
          × (Option.map (λ s. actions s.audit_logger) audited.1.framework
              ≡ some (actions security.audit_logger ++ table.1)))
audited_outcome_example =
    audited_outcome json (entry "a" true) (entry "b" false) (entry "c" true) (λ e. "error") "f" "()"
      "{}" data_accessed medium none count_call security 0
