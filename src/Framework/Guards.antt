-- ===== src/Framework/Guards.antt =====
-- The decorators of framework.py and the wrapped `create_feed`. A wrapped function raises errors of a
-- type `X` and changes a state of a type `F`, not the framework.
use bt_api_security.Prelude.{
  String, ℕ, Bool, Option, none, some, List, [], ◌∷◌, if◌then◌else◌, ◌==◌, nat_Eq, string_Eq,
  Result, ok, err, Exec, ◌>>=◌, ◌>>◌, pure, raise, LocalTime,
}
use bt_api_security.AccessControl.Types.{
  Resource, exchange_config, PermissionLevel, write_level, AccessError,
}
use bt_api_security.AccessControl.Manager.{Manager}
use bt_api_security.AccessControl.Manager
use bt_api_security.Audit.Types.{
  EventType, user_login, SeverityLevel, medium, high, AuditEvent, Json, post_init,
}
use bt_api_security.Audit.Logger.{AuditLogger, AuditError, log_event}

-- The components of `SecurityFramework` that the wrappers call.
pub record Security (Line : Type 0) : Type 0 where
  pub access_control : Manager
  pub audit_logger : AuditLogger Line

-- The framework and the state of the wrapped function.
pub record World (Line F : Type 0) : Type 0 where
  pub security : Security Line
  pub rest : F

-- The global framework, if there is one, and that state.
pub record Global (Line F : Type 0) : Type 0 where
  pub framework : Option (Security Line)
  pub rest : F

pub data Failure (X : Type 0) : Type 0 where
  access : AccessError → Failure X
  audit : AuditError → Failure X
  raised : X → Failure X
  not_initialized : Failure X

-- A call of a part of the world, whose errors are passed on.
abbrev pub map_err : {E E' A : Type 0} → (E → E') → Result E A → Result E' A
map_err f (ok a) = ok a
map_err f (err e) = err (f e)

-- `try: m` with `except Exception as e: h(e)`
abbrev pub handle : {E S A : Type 0} → Result E A → (E → Exec E S A) → Exec E S A
handle (ok a) h s = (ok a, s)
handle (err e) h s = h e s

abbrev pub except_with : {E S A : Type 0} → Exec E S A → (E → Exec E S A) → Exec E S A
except_with m h s = handle (m s).0 h (m s).1

-- What an event takes from `uuid4` and the clock, and whether its write succeeds.
pub record Entry : Type 0 where
  pub event_id : String
  pub timestamp : ℕ
  pub writes : Bool

-- `kwargs.get("user_id", "anonymous")`; the outer `none` is a missing argument.
abbrev pub user_or_anonymous : Option (Option String) → Option String
user_or_anonymous none = some "anonymous"
user_or_anonymous (some u) = u

module _ {Line X F B : Type 0} where
  abbrev pub on_access : Exec AccessError Manager B → Exec (Failure X) (World Line F) B
  on_access m s =
      let r = m s.security.access_control in
      (map_err access r.0, record s { security = record s.security { access_control = r.1 } })

  abbrev pub on_audit : Exec AuditError (AuditLogger Line) B → Exec (Failure X) (World Line F) B
  on_audit m s =
      let r = m s.security.audit_logger in
      (map_err audit r.0, record s { security = record s.security { audit_logger = r.1 } })

  -- The wrapped function.
  abbrev pub run : Exec X F B → Exec (Failure X) (World Line F) B
  run func s = (map_err raised (func s.rest).0, record s { rest = (func s.rest).1 })

  abbrev pub run_alone : Exec X F B → F → Global Line F → Result (Failure X) B × Global Line F
  run_alone func rest g = (map_err raised (func rest).0, record g { rest = (func rest).1 })

  -- A wrapper where there is no framework, and where there is one.
  abbrev pub with_framework :
      Option (Security Line)
      → Exec X F B
      → Exec (Failure X) (World Line F) B
      → Exec (Failure X) (Global Line F) B
  with_framework none func body g = run_alone func g.rest g
  with_framework (some fw) func body g =
      let r = body (record { security = fw; rest = g.rest }) in
      (r.0, record { framework = some r.1.security; rest = r.1.rest })

module _ {Line : Type 0} (json : Json Line) where
  -- `AuditEvent(...)` with the keyword arguments that the wrappers give; details by their JSON text.
  unfoldable pub new_event :
      Entry
      → EventType
      → SeverityLevel
      → Option String
      → String
      → String
      → String
      → List (String × String)
      → AuditEvent
  new_event entry type severity user_id resource action outcome details = post_init json (record {
    event_id = entry.event_id;
    timestamp = entry.timestamp;
    event_type = type;
    severity = severity;
    user_id = user_id;
    session_id = none;
    ip_address = none;
    user_agent = none;
    resource = some resource;
    action = some action;
    outcome = outcome;
    details = details;
    compliance_tags = [];
    previous_hash = none;
    event_hash = none;
  })

  module _ {X F : Type 0} where
    abbrev pub log : Entry → AuditEvent → Exec (Failure X) (World Line F) AuditEvent
    log entry e = on_audit (log_event json entry.writes e)

module _ {Line X F A : Type 0} where
  -- The decorator `require_permission`, once the framework is there; `user_id` is the keyword
  -- argument.
  unfoldable pub permission_body :
      (ℕ → LocalTime)
      → (now later : ℕ) → Resource
      → String
      → PermissionLevel
      → Option String
      → Exec X F A
      → Exec (Failure X) (World Line F) A
  permission_body local_time now later resource action level none func = run func
  permission_body local_time now later resource action level (some user_id) func =
      if user_id == ""
      then run func
      else on_access
          (Manager.require_permission local_time now later user_id resource action level none)
        >> run func

  unfoldable pub require_permission :
      (ℕ → LocalTime)
      → (now later : ℕ) → Resource
      → String
      → PermissionLevel
      → Option String
      → Exec X F A
      → Exec (Failure X) (Global Line F) A
  unfolding permission_body
  require_permission local_time now later resource action level user_id func g =
      with_framework g.framework func
        (permission_body local_time now later resource action level user_id func) g

  module _ (json : Json Line) where
    -- The decorator `audit_access`, once the framework is there, around a function called `name`;
    -- `args` and `kwargs` are the JSON texts of the arguments, `text_of` that of an exception.
    unfoldable pub audit_body :
        (before success failure : Entry) (text_of : Failure X → String) (name args kwargs : String)
        → EventType
        → SeverityLevel
        → Option (Option String)
        → Exec X F A
        → Exec (Failure X) (World Line F) A
    unfolding new_event
    audit_body before success failure text_of name args kwargs type severity given func =
        let user_id = user_or_anonymous given in
        log json before (
          new_event json before type severity user_id name "execute" "success"
            (("args", args) ∷ ("kwargs", kwargs) ∷ []))
        >> except_with
            (run func >>= λ result.
              log json success
                (new_event json success type severity user_id name "success" "success" [])
              >> pure result)
            (λ e.
              log json failure (
                new_event json failure type high user_id name "error" "failure"
                  (("error", text_of e) ∷ []))
              >> raise e)

    unfoldable pub audit_access :
        (before success failure : Entry) (text_of : Failure X → String) (name args kwargs : String)
        → EventType
        → SeverityLevel
        → Option (Option String)
        → Exec X F A
        → Exec (Failure X) (Global Line F) A
    unfolding audit_body
    audit_access before success failure text_of name args kwargs type severity given func g =
        with_framework g.framework func
          (audit_body before success failure text_of name args kwargs type severity given func) g

    -- `secure_create_feed` of `integrate_with_bt_api`; `original` is the instance's `create_feed`.
    unfoldable pub secure_create_feed :
        (ℕ → LocalTime)
        → (now later : ℕ) → Entry
        → (args kwargs : String) → Option String
        → Exec X F A
        → Exec (Failure X) (World Line F) A
    unfolding new_event
    secure_create_feed local_time now later entry args kwargs none original = run original
    secure_create_feed local_time now later entry args kwargs (some user_id) original =
        if user_id == ""
        then run original
        else on_access (
            Manager.require_permission local_time now later user_id exchange_config "create"
              write_level none)
          >> log json entry (
              new_event json entry user_login medium (some user_id) "exchange_feed" "create"
                "success" (("args", args) ∷ ("kwargs", kwargs) ∷ []))
          >> run original
