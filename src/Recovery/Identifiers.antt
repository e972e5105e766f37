-- ===== src/Recovery/Identifiers.antt =====
-- The ids of recovery/disaster_recovery.py, which are the whole second of their creation.
use bt_api_security.Prelude.{
  String, ℕ, suc, ◌≡◌, refl, ap, ◌↔◌, inl, inr, true, some, List, [], ◌∷◌, arith, Bool-cases,
  Option-cases, ◌==◌, nat_Eq, string_Eq, length, ok, whole_seconds,
}
use bt_api_security.Dict.{Dict, lookup, insert, has_key}
use bt_api_security.Dict.Laws.{lookup-insert_self}
use bt_api_security.Recovery.Manager.{
  recovering, status_value, RecoveryManager, create_backup_config, create_recovery_plan,
  initiate_backup, initiate_recovery, RecoveryStarted, get_recovery_status, backup_id_at,
}

length-insert :
    {V : Type 0} (k : String) (v w : V) (d : Dict V)
    → lookup k d ≡ some w
    → length (insert k v d) ≡ length d
unfolding lookup insert
length-insert k v w [] h = absurd (let j = h in cc)
length-insert k v w ((j, x) ∷ d) h = elim (Bool-cases (j == k)) [
  | inl here ↦ rw here refl
  | inr apart ↦ rw apart (ap suc (length-insert k v w d (rw apart at h)))
]

-- Two backup configurations that are created in one second have the same id: the first one is lost,
-- the number of configurations does not grow, and a backup that is started with the id that the
-- first call returned uses the locations of the second.
pub same_second_replaces :
    (now again created created_again started : ℕ) (name frequency other other_frequency : String)
    (days other_days : ℕ) (locations other_locations : List String) (s : RecoveryManager)
    → whole_seconds now ≡ whole_seconds again
    → let (b, t) = create_backup_config now created name frequency days locations s in
      let (c, u) =
        create_backup_config again created_again other other_frequency other_days other_locations
          t in
      (length u.backups ≡ length t.backups)
      × (initiate_backup started b.backup_id u
          ≡ ok (record {
            backup_id = b.backup_id;
            started_at = started;
            locations = other_locations;
          }))
unfolding create_backup_config initiate_backup
same_second_replaces now again created created_again started name frequency other other_frequency
      days other_days locations other_locations s same =
    let (b, t) = create_backup_config now created name frequency days locations s in
    let (c, u) =
      create_backup_config again created_again other other_frequency other_days other_locations t in
    rw same (
      length-insert (backup_id_at again) c (record b { backup_id = backup_id_at again }) _
          (lookup-insert_self (backup_id_at again) _ s.backups),
      rw (initiate_backup, lookup-insert_self (backup_id_at again) c _) refl,
    )

-- Calls that change the state.
pub data Step (s : RecoveryManager) : RecoveryManager → Type 0 where
  backup_step :
      (now created : ℕ) (name frequency : String) (days : ℕ) (locations : List String)
      → Step s (create_backup_config now created name frequency days locations s).1
  plan_step :
      (now created : ℕ) (name description : String) (types steps : List String) (rto rpo : ℕ)
      (contacts : List (Dict String))
      → Step s (create_recovery_plan now created name description types steps rto rpo contacts s).1
  recovery_step : (now : ℕ) (plan_id : String) → Step s (initiate_recovery now plan_id s).1

pub data Reach (s : RecoveryManager) : RecoveryManager → Type 0 where
  here : Reach s s
  next : {t u : RecoveryManager} → Reach s t → Step t u → Reach s u

Step-recovering :
    {s t : RecoveryManager}
    → Step s t
    → s.current_status ≡ recovering
    → t.current_status ≡ recovering
unfolding create_backup_config create_recovery_plan initiate_recovery
Step-recovering (backup_step now created name frequency days locations) h = h
Step-recovering (plan_step now created name description types steps rto rpo contacts) h = h
Step-recovering {s} (recovery_step now plan_id) h = ground arith

Reach-recovering :
    {s t : RecoveryManager}
    → Reach s t
    → s.current_status ≡ recovering
    → t.current_status ≡ recovering
Reach-recovering here h = h
Reach-recovering (next r step) h = Step-recovering step (Reach-recovering r h)

-- `initiate_recovery` succeeds exactly for the id of a plan that is stored, and once it has succeeded
-- the status that `get_recovery_status` reports is "recovering" after any further calls.
pub recovering_stays :
    (now : ℕ) (plan_id : String) (s : RecoveryManager)
    → (has_key plan_id s.recovery_plans ≡ true) ↔ (
        (started : RecoveryStarted) × ((initiate_recovery now plan_id s).0 ≡ ok started)
        × ((t : RecoveryManager)
            → Reach (initiate_recovery now plan_id s).1 t
            → (get_recovery_status t).0 ≡ "recovering"))
unfolding initiate_recovery get_recovery_status status_value has_key
recovering_stays now plan_id s = elim (Option-cases (lookup plan_id s.recovery_plans)) [
  | inl missing ↦ (
    λ h. absurd (let j = rw (has_key, missing) at h in cc),
    λ (started, h, rest). absurd (let j = rw (missing, initiate_recovery) at h in cc),
  )
  | inr (p, there) ↦
      let started : RecoveryStarted = record {
        plan_id = plan_id;
        recovery_steps = p.recovery_steps;
        rto_hours = p.rto_hours;
        contacts = p.contacts;
        initiated_at = now;
      } in
      (
        λ h. (
          started,
          rw (there, initiate_recovery) refl,
          λ t r. rw (Reach-recovering r (rw (there, initiate_recovery) refl)) refl,
        ),
        λ h. rw (has_key, there) refl,
      )
]
