-- ===== src/Identity/Accounts.antt =====
-- `IdentityManager` of core/identity_manager.py: updates of an identity, and its status.
use bt_api_security.Prelude.{
  String, ℕ, Bool, true, false, Option, List, [], ◌∷◌, if◌then◌else◌, nat_Eq, string_Eq,
}
use bt_api_security.Dict.{Dict, lookup, erase}
use bt_api_security.Identity.Types.{
  IdentityProvider, identity_provider_Eq, UserStatus, active, suspended, locked, user_status_Eq,
  Value, text, number, Identity, IdentityManager,
}
use bt_api_security.Identity.Manager.{has_some, write_identity, set_attribute, set_status}

-- An item of `updates`: a field with a value of its type, or another key.
pub data Update : Type 0 where
  set_username set_email set_full_name : String → Update
  set_department set_title set_manager_id : Option String → Update
  set_groups : List String → Update
  set_attributes : Dict Value → Update
  set_provider : IdentityProvider → Update
  set_user_status : UserStatus → Update
  set_created_at : ℕ → Update
  set_last_login set_password_changed : Option ℕ → Update
  set_other : String → Value → Update

unfoldable pub apply : Update → Identity → Identity
apply (set_username v) i = record i { username = v }
apply (set_email v) i = record i { email = v }
apply (set_full_name v) i = record i { full_name = v }
apply (set_department v) i = record i { department = v }
apply (set_title v) i = record i { title = v }
apply (set_manager_id v) i = record i { manager_id = v }
apply (set_groups v) i = record i { groups = v }
apply (set_attributes v) i = record i { attributes = v }
apply (set_provider v) i = record i { provider = v }
apply (set_user_status v) i = record i { status = v }
apply (set_created_at v) i = record i { created_at = v }
apply (set_last_login v) i = record i { last_login = v }
apply (set_password_changed v) i = record i { password_changed = v }
apply (set_other key v) i = set_attribute key v i

unfoldable pub apply_all : List Update → Identity → Identity
unfolding apply
apply_all [] i = i
apply_all (u ∷ us) i = apply_all us (apply u i)

-- A method that writes to an identity if there is one.
abbrev pub write_known : String → (Identity → Identity) → IdentityManager → Bool × IdentityManager
write_known identity_id f s =
    if has_some (lookup identity_id s.identities)
    then (true, write_identity identity_id f s)
    else (false, s)

unfoldable pub update_identity : String → List Update → IdentityManager → Bool × IdentityManager
unfolding apply_all
update_identity identity_id updates s = write_known identity_id (apply_all updates) s

unfoldable pub suspend_user : ℕ → String → String → IdentityManager → Bool × IdentityManager
suspend_user now identity_id reason s =
    write_known identity_id
      (λ i.
        set_attribute "suspended_at" (number now)
          (set_attribute "suspension_reason" (text reason) (set_status suspended i)))
      s

abbrev pub drop_attribute : String → Identity → Identity
drop_attribute key i = record i { attributes = erase key i.attributes }

unfoldable pub activate_user : String → IdentityManager → Bool × IdentityManager
activate_user identity_id s =
    write_known identity_id
      (λ i.
        drop_attribute "suspended_at" (drop_attribute "suspension_reason" (set_status active i)))
      s

unfoldable pub lock_user : ℕ → String → String → IdentityManager → Bool × IdentityManager
lock_user now identity_id reason s =
    write_known identity_id
      (λ i.
        set_attribute "locked_at" (number now)
          (set_attribute "lock_reason" (text reason) (set_status locked i)))
      s
