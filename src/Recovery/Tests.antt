-- ===== src/Recovery/Tests.antt =====
-- Concrete runs of recovery/disaster_recovery.py.
use bt_api_security.Prelude.{◌≡◌, refl, ◌↔◌, true, [], ◌∷◌, nat_Eq, string_Eq, length, ok}
use bt_api_security.Dict.{has_key}
use bt_api_security.Recovery.Manager.{
  RecoveryStarted, BackupConfig, RecoveryManager, init, create_backup_config, initiate_backup,
  initiate_recovery, get_recovery_status,
}
use bt_api_security.Recovery.Identifiers.{Reach, same_second_replaces, recovering_stays}

abbrev start : RecoveryManager
start = init 0 0

abbrev one_backup : BackupConfig × RecoveryManager
one_backup = create_backup_config 5000000 5000000 "a" "daily" 7 ("first" ∷ []) start

abbrev two_backups : BackupConfig × RecoveryManager
two_backups = create_backup_config 5000001 5000001 "b" "weekly" 8 ("second" ∷ []) one_backup.1

same_second_replaces_example :
    (length two_backups.1.backups ≡ length one_backup.1.backups)
    × (initiate_backup 9 one_backup.0.backup_id two_backups.1
        ≡ ok (record {
          backup_id = one_backup.0.backup_id;
          started_at = 9;
          locations = "second" ∷ [];
        }))
same_second_replaces_example =
    same_second_replaces 5000000 5000001 5000000 5000001 9 "a" "daily" "b" "weekly" 7 8
      ("first" ∷ []) ("second" ∷ []) start refl

recovering_stays_example : (has_key "primary_recovery" start.recovery_plans ≡ true) ↔ (
    (started : RecoveryStarted) × ((initiate_recovery 9 "primary_recovery" start).0 ≡ ok started)
    × ((t : RecoveryManager)
        → Reach (initiate_recovery 9 "primary_recovery" start).1 t
        → (get_recovery_status t).0 ≡ "recovering"))
recovering_stays_example = recovering_stays 9 "primary_recovery" start
