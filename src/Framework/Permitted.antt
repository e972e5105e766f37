-- ===== src/Framework/Permitted.antt =====
-- The decorator `require_permission` of framework.py, over the decisions of access control.
use bt_api_security.Prelude.{
  String, ℕ, ◌≡◌, refl, ◌≢◌, inl, inr, Bool, true, false, none, some, if◌then◌else◌, Option-cases,
  ◌==◌, nat_Eq, string_Eq, Result, ok, err, Exec, LocalTime,
}
use bt_api_security.AccessControl.Types.{
  Resource, PermissionLevel, AccessError, resource_value, access_denied,
}
use bt_api_security.AccessControl.Manager.{Manager, check_permission}
use bt_api_security.AccessControl.Manager
use bt_api_security.AccessControl.Decisions.{IsPermitted, check_permission_iff}
use bt_api_security.Dict.{lookup}
use bt_api_security.Framework.Guards.{
  Security, Global, access, run_alone, permission_body, require_permission,
}

module _ (local_time : ℕ → LocalTime) (now later : ℕ) (user_id action : String)
    (resource : Resource) (level : PermissionLevel) (m : Manager) where
  -- What `check_permission` answers decides `require_permission`, which changes nothing.
  granted :
      check_permission local_time now user_id resource action level none m ≡ (ok true, m)
      → Manager.require_permission local_time now later user_id resource action level none m
        ≡ (ok tt, m)
  unfolding Manager.require_permission
  granted h = rw h refl

  check_permission-state :
      (check_permission local_time now user_id resource action level none m).1 ≡ m
  unfolding check_permission
  check_permission-state = elim (Option-cases (lookup user_id m.users)) [
    | inl missing ↦ rw (check_permission, missing) refl
    | inr (user, known) ↦ rw (check_permission, known) refl
  ]

  refused :
      (r : Result AccessError Bool)
      → (check_permission local_time now user_id resource action level none m).0 ≡ r
      → r ≢ ok true
      → (e : AccessError) × (Manager.require_permission local_time now later user_id resource action
            level none m
          ≡ (err e, m))
  unfolding Manager.require_permission
  refused (err e) h other = (e, rw (h, check_permission-state) refl)
  refused (ok true) h other = absurd (other refl)
  refused (ok false) h other = (
    access_denied user_id (resource_value resource) action (
        if Manager.context_is_locked later none m
        then "Account is locked"
        else "Insufficient permissions"),
    rw (h, check_permission-state) refl,
  )

-- With a framework and a user id that is not empty, a function that `require_permission` wraps runs
-- exactly if access control permits the request: then the call does what the function does and the
-- framework is as before, otherwise it raises the refusal and nothing at all changes. Without a
-- framework or without a user id, the function runs unchecked.
pub guarded_call :
    {Line X F A : Type 0} (local_time : ℕ → LocalTime) (now later : ℕ) (user_id action : String)
    (resource : Resource) (level : PermissionLevel) (func : Exec X F A) (fw : Security Line)
    (rest : F)
    → (user_id == "") ≡ false
    → let g : Global Line F = record { framework = some fw; rest = rest } in
      let nobody : Global Line F = record { framework = none; rest = rest } in
      (IsPermitted local_time now fw.access_control user_id resource action level none
        → require_permission local_time now later resource action level (some user_id) func g
          ≡ run_alone func rest g)
      × (¬ IsPermitted local_time now fw.access_control user_id resource action level none
          → (e : AccessError) × (require_permission local_time now later resource action level
                (some user_id)
                func
                g
              ≡ (err (access e), g)))
      × (require_permission local_time now later resource action level none func g
          ≡ run_alone func rest g)
      × (require_permission local_time now later resource action level (some user_id) func nobody
          ≡ run_alone func rest nobody)
unfolding require_permission permission_body
guarded_call local_time now later user_id action resource level func fw rest given =
    let m = fw.access_control in
    let decision = check_permission_iff local_time now m user_id resource action level none in
    (
      λ yes'.
          rw (given, granted local_time now later user_id action resource level m (decision.1 yes'))
            refl,
      λ no'.
          let (e, h) =
            refused local_time now later user_id action resource level m
              (check_permission local_time now user_id resource action level none m).0 refl
              (λ h. no' (
                decision.0 (
                  let st =
                    check_permission-state local_time now later user_id action resource level m in
                  cc))) in
          (e, rw (given, h) refl),
      refl,
      refl,
    )
