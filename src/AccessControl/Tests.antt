-- ===== src/AccessControl/Tests.antt =====
-- Runs of core/access_control.py on a small manager.
use bt_api_security.Prelude.{
  String, ℕ, ◌≡◌, refl, ◌↔◌, true, false, none, some, List, [], ◌∷◌, arith, nat_Eq, string_Eq,
  contains, contains_here, contains_there, ok, err, LocalTime,
}
use bt_api_security.Dict.{lookup, insert, has_key}
use bt_api_security.AccessControl.Types.{
  read_level, write_level, admin_level, order_management, trading_accounts, resource_Eq,
  Resource-discrete, permission_Eq, Role, Permission, User, AccessContext, access_denied,
}
use bt_api_security.AccessControl.Roles.{has_permission, covers, trader, matches_action}
use bt_api_security.AccessControl.Manager.{
  Manager, init, create_user, add_role, new_user, is_locked, check_permission, check_abac_rules,
}
use bt_api_security.AccessControl.Sessions.{
  ContextAttrs, record_login_attempt, unlock_user, create_session,
}
use bt_api_security.AccessControl.Decisions.{
  IsPermitted, check_permission_iff, OwnsInHours, check_abac_rules_iff,
}
use bt_api_security.AccessControl.Permissions.{IsOrderOf, has_permission_order}
use bt_api_security.AccessControl.Lockout.{three_failures_lock, unlock_user_unlocks, fail_each}
use bt_api_security.AccessControl.Invariant.{IsValid, here, next, create_user_step, lock_user_step}
use bt_api_security.AccessControl.Preserves.{Reach-IsValid}
use bt_api_security.AccessControl.Sessions.{lock_user}

abbrev clock : String → ℕ
clock _ = 1000

abbrev uuid : String → String
uuid name = name

abbrev ann : User
ann = add_role "trader" (new_user "ann" "Ann" "ann@example.com" [] 1000)

abbrev manager : Manager
manager = record (init clock uuid none) { users = ("ann", ann) ∷ [] }

abbrev noon : ℕ → LocalTime
noon _ = record { hour = 12; weekday = 2 }

abbrev no_attrs : ContextAttrs
no_attrs = record {
  ip_address = none;
  user_agent = none;
  timestamp = none;
  session_id = none;
  request_id = none;
}

abbrev at_noon : AccessContext
at_noon = record {
  user = "ann";
  resource = trading_accounts;
  action = "read";
  ip_address = none;
  user_agent = none;
  timestamp = 5000;
  session_id = none;
  request_id = none;
}

created_alike :
    (create_user "ann" "Ann" "ann@example.com" [] 1000 (init clock uuid none)).1 ≡ manager
unfolding create_user init has_key lookup insert
created_alike = refl

check_permission_iff_example :
    (check_permission noon 2000 "ann" order_management "create" write_level none manager
      ≡ (ok true, manager))
    ↔ IsPermitted noon 2000 manager "ann" order_management "create" write_level none
check_permission_iff_example =
    check_permission_iff noon 2000 manager "ann" order_management "create" write_level none

check_abac_rules_iff_example :
    (check_abac_rules noon ann trading_accounts read_level at_noon ≡ ok true)
    ↔ OwnsInHours noon ann trading_accounts at_noon
check_abac_rules_iff_example = check_abac_rules_iff noon ann trading_accounts read_level at_noon

abbrev weak : Permission
weak = record { resource = order_management; action = "create"; level = read_level }

abbrev strong : Permission
strong = record { resource = order_management; action = "create"; level = admin_level }

abbrev unrelated : Permission
unrelated = record { resource = trading_accounts; action = "read"; level = read_level }

has_weak : contains weak (unrelated ∷ weak ∷ strong ∷ []) ≡ true
has_weak = contains_there weak unrelated (weak ∷ strong ∷ []) (contains_here weak (strong ∷ []))

has_strong : contains strong (unrelated ∷ weak ∷ strong ∷ []) ≡ true
has_strong =
    contains_there strong unrelated (weak ∷ strong ∷ [])
      (contains_there strong weak (strong ∷ []) (contains_here strong []))

covers-weak : covers weak order_management "create" ≡ true
unfolding covers matches_action Resource-discrete
covers-weak = refl

covers-strong : covers strong order_management "create" ≡ true
unfolding covers matches_action Resource-discrete
covers-strong = refl

abbrev mixed : Role
mixed = record (trader clock uuid) { permissions = unrelated ∷ weak ∷ strong ∷ [] }

has_permission_order_example :
    ((order : List Permission) × IsOrderOf order mixed.permissions
      × (has_permission (record mixed { permissions = order }) order_management "create" write_level
          ≡ true))
    × ((order : List Permission) × IsOrderOf order mixed.permissions
        × (has_permission
              (record mixed { permissions = order })
              order_management
              "create"
              write_level
            ≡ false))
has_permission_order_example =
    has_permission_order mixed weak strong order_management "create" write_level has_weak has_strong
      covers-weak covers-strong (omega arith) (omega arith)

ann_known : lookup "ann" manager.users ≡ some ann
unfolding lookup
ann_known = refl

abbrev locked_manager : Manager
locked_manager =
    (record_login_attempt 4000 "ann" false (fail_each "ann" (2000 ∷ 3000 ∷ []) manager)).1

three_failures_lock_example :
    (check_permission noon 5000 "ann" order_management "create" read_level none locked_manager
      ≡ (ok false, locked_manager))
    × (create_session 5000 5001 5002 "s1" "ann" no_attrs locked_manager ≡ (
      err (access_denied "ann" "session" "create" "Account inactive or locked"),
      locked_manager,
    ))
three_failures_lock_example =
    three_failures_lock noon "ann" (2000 ∷ 3000 ∷ []) 4000 5000 manager ann order_management
      "create" read_level none 5001 5002 "s1" no_attrs ann_known (omega arith) (omega arith)

unlock_user_unlocks_example :
    (u' : User) × (lookup "ann" (unlock_user "ann" manager).1.users ≡ some u')
    × (is_locked 6000 u' ≡ false)
    × (u'.failed_login_attempts ≡ 0)
    × (u'.roles ≡ ann.roles)
unlock_user_unlocks_example = unlock_user_unlocks "ann" 6000 manager ann ann_known

abbrev after_lock : Manager
after_lock =
    (lock_user 2000 "ann" 60
      (create_user "ann" "Ann" "ann@example.com" [] 1000 (init clock uuid none)).1).1

Reach-IsValid_example : IsValid after_lock
Reach-IsValid_example = Reach-IsValid clock uuid none (
    next (next here (create_user_step "ann" "Ann" "ann@example.com" [] 1000))
      (lock_user_step 2000 "ann" 60))
