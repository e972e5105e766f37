-- ===== src/Recovery/Manager.antt =====
-- `DisasterRecoveryManager` of recovery/disaster_recovery.py.
use bt_api_security.Prelude.{
  String, ℕ, Bool, true, none, some, List, [], ◌∷◌, map, nat_Eq, string_Eq, length, Result, ok, err,
  Exec, whole_seconds,
}
use bt_api_security.Prelude.Text.{◌^◌}
use bt_api_security.Prelude.Decimal.{decimal}
use bt_api_security.Dict.{Dict, lookup, insert}

pub data RecoveryStatus : Type 0 where
  normal degraded disaster recovering recovered : RecoveryStatus

unfoldable pub status_value : RecoveryStatus → String
status_value normal = "normal"
status_value degraded = "degraded"
status_value disaster = "disaster"
status_value recovering = "recovering"
status_value recovered = "recovered"

pub record BackupConfig : Type 0 where
  pub backup_id : String
  pub name : String
  pub frequency : String
  pub retention_days : ℕ
  pub locations : List String
  pub encryption_enabled : Bool
  pub created_at : ℕ

pub record RecoveryPlan : Type 0 where
  pub plan_id : String
  pub name : String
  pub description : String
  pub disaster_types : List String
  pub recovery_steps : List String
  pub rto_hours : ℕ
  pub rpo_hours : ℕ
  pub contacts : List (Dict String)
  pub created_at : ℕ

pub record RecoveryManager : Type 0 where
  pub backups : Dict BackupConfig
  pub recovery_plans : Dict RecoveryPlan
  pub current_status : RecoveryStatus

unfoldable pub default_backup : ℕ → BackupConfig
default_backup now = record {
  backup_id = "database_daily";
  name = "Daily Database Backup";
  frequency = "daily";
  retention_days = 30;
  locations = "s3://backup-bucket/database/" ∷ "/local/backups/database/" ∷ [];
  encryption_enabled = true;
  created_at = now;
}

unfoldable pub default_plan : ℕ → RecoveryPlan
default_plan now = record {
  plan_id = "primary_recovery";
  name = "Primary Disaster Recovery Plan";
  description = "Standard recovery procedures for system outages";
  disaster_types = "server_failure" ∷ "data_corruption" ∷ "network_outage" ∷ [];
  recovery_steps =
      "Assess disaster scope and impact" ∷ "Activate recovery team" ∷ "Restore from latest backup"
      ∷ "Verify system integrity" ∷ "Resume operations" ∷ "Document lessons learned" ∷ [];
  rto_hours = 4;
  rpo_hours = 24;
  contacts =
      (("role", "Incident Commander") ∷ ("contact", "incident@company.com") ∷ [])
      ∷ (("role", "Technical Lead") ∷ ("contact", "tech-lead@company.com") ∷ [])
      ∷ [];
  created_at = now;
}

-- The clock is read for each of the two.
unfoldable pub init : ℕ → ℕ → RecoveryManager
unfolding default_backup default_plan
init first second_time = record {
  backups = ("database_daily", default_backup first) ∷ [];
  recovery_plans = ("primary_recovery", default_plan second_time) ∷ [];
  current_status = normal;
}

abbrev pub backup_id_at : ℕ → String
backup_id_at now = "backup_" ^ decimal (whole_seconds now)

abbrev pub plan_id_at : ℕ → String
plan_id_at now = "plan_" ^ decimal (whole_seconds now)

-- `now` names the configuration, `created` is its `created_at`.
unfoldable pub create_backup_config :
    (now created : ℕ)
    → String
    → String
    → ℕ
    → List String
    → RecoveryManager
    → BackupConfig × RecoveryManager
create_backup_config now created name frequency retention_days locations s =
    let b : BackupConfig = record {
      backup_id = backup_id_at now;
      name = name;
      frequency = frequency;
      retention_days = retention_days;
      locations = locations;
      encryption_enabled = true;
      created_at = created;
    } in
    (b, record s { backups = insert (backup_id_at now) b s.backups })

unfoldable pub create_recovery_plan :
    (now created : ℕ)
    → String
    → String
    → List String
    → List String
    → (rto_hours rpo_hours : ℕ) → List (Dict String)
    → RecoveryManager
    → RecoveryPlan × RecoveryManager
create_recovery_plan now created name description disaster_types recovery_steps rto_hours rpo_hours
      contacts s =
    let p : RecoveryPlan = record {
      plan_id = plan_id_at now;
      name = name;
      description = description;
      disaster_types = disaster_types;
      recovery_steps = recovery_steps;
      rto_hours = rto_hours;
      rpo_hours = rpo_hours;
      contacts = contacts;
      created_at = created;
    } in
    (p, record s { recovery_plans = insert (plan_id_at now) p s.recovery_plans })

-- The dictionaries that the methods return where they succeed.
pub record BackupStarted : Type 0 where
  pub backup_id : String
  pub started_at : ℕ
  pub locations : List String

pub record RecoveryStarted : Type 0 where
  pub plan_id : String
  pub recovery_steps : List String
  pub rto_hours : ℕ
  pub contacts : List (Dict String)
  pub initiated_at : ℕ

pub record TestResults : Type 0 where
  pub plan_id : String
  pub steps_tested : ℕ
  pub steps_passed : ℕ
  pub duration_minutes : ℕ
  pub test_date : ℕ

unfoldable pub initiate_backup : ℕ → String → RecoveryManager → Result String BackupStarted
initiate_backup now backup_id s = elim (lookup backup_id s.backups) [
  | none ↦ err "Backup configuration not found"
  | some b ↦ ok (record { backup_id = backup_id; started_at = now; locations = b.locations })
]

unfoldable pub initiate_recovery : ℕ → String → Exec String RecoveryManager RecoveryStarted
initiate_recovery now plan_id s = elim (lookup plan_id s.recovery_plans) [
  | none ↦ (err "Recovery plan not found", s)
  | some p ↦ (
    ok (record {
      plan_id = plan_id;
      recovery_steps = p.recovery_steps;
      rto_hours = p.rto_hours;
      contacts = p.contacts;
      initiated_at = now;
    }),
    record s { current_status = recovering },
  )
]

-- Status, number of backup configurations, number of plans.
unfoldable pub get_recovery_status : RecoveryManager → String × ℕ × ℕ
unfolding status_value
get_recovery_status s = (status_value s.current_status, length s.backups, length s.recovery_plans)

unfoldable pub test_recovery_plan : ℕ → String → RecoveryManager → Result String TestResults
test_recovery_plan now plan_id s = elim (lookup plan_id s.recovery_plans) [
  | none ↦ err "Recovery plan not found"
  | some p ↦ ok (record {
    plan_id = plan_id;
    steps_tested = length p.recovery_steps;
    steps_passed = length p.recovery_steps;
    duration_minutes = 45;
    test_date = now;
  })
]

pub record Report : Type 0 where
  pub backup_configurations : List (String × String × String × ℕ)
  pub recovery_plans : List (String × String × ℕ × ℕ × List String)
  pub current_status : String

unfoldable pub generate_recovery_report : RecoveryManager → Report
unfolding status_value
generate_recovery_report s = record {
  backup_configurations =
      map (λ e. (e.1.backup_id, e.1.name, e.1.frequency, e.1.retention_days)) s.backups;
  recovery_plans =
      map (λ e. (e.1.plan_id, e.1.name, e.1.rto_hours, e.1.rpo_hours, e.1.disaster_types))
        s.recovery_plans;
  current_status = status_value s.current_status;
}
