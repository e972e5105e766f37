-- ===== src/AccessControl/Invariant.antt =====
-- What holds of `AccessControlManager` of core/access_control.py in every state that its methods
-- and edits of role objects lead to.
use bt_api_security.Prelude.{
  String, ℕ, ◌≡◌, Bool, true, some, if◌then◌else◌, nat_Eq, string_Eq, contains,
}
use bt_api_security.Dict.{Dict, lookup, has_key, adjust, IsUnique}
use bt_api_security.AccessControl.Types.{Permission, User, Value, AccessContext}
use bt_api_security.AccessControl.Roles.{add_permission, remove_permission}
use bt_api_security.AccessControl.Manager.{
  Manager, create_user, create_role, assign_role, revoke_role,
}
use bt_api_security.AccessControl.Sessions.{
  record_login_attempt, lock_user, unlock_user, create_session, revoke_session, ContextAttrs,
}

-- Keys stand once; a user is filed under its id and holds only roles that exist; a session
-- belongs to a user that exists.
pub record IsValid (m : Manager) : Type 0 where
  pub unique_users : IsUnique m.users
  pub unique_roles : IsUnique m.roles
  pub unique_sessions : IsUnique m.session_contexts
  pub trader_known : has_key "trader" m.roles ≡ true
  pub own_ids : (k : String) (u : User) → lookup k m.users ≡ some u → u.user_id ≡ k
  pub roles_known :
      (k name : String) (u : User)
      → lookup k m.users ≡ some u
      → contains name u.roles ≡ true
      → has_key name m.roles ≡ true
  pub sessions_known :
      (k : String) (c : AccessContext)
      → lookup k m.session_contexts ≡ some c
      → has_key c.user m.users ≡ true

-- A method call, or an edit of a role through a reference to it.
pub data Step (m : Manager) : Manager → Type 0 where
  create_user_step :
      (id name email : String) (attributes : Dict Value) (now : ℕ)
      → Step m (create_user id name email attributes now m).1
  create_role_step :
      (name description : String) (attributes : Dict Value) (now : ℕ) (id : String)
      → Step m (create_role name description attributes now id m).1
  assign_role_step : (user_id name : String) → Step m (assign_role user_id name m).1
  revoke_role_step : (user_id name : String) → Step m (revoke_role user_id name m).1
  create_session_step :
      (t t' t'' : ℕ) (session_id user_id : String) (attrs : ContextAttrs)
      → Step m (create_session t t' t'' session_id user_id attrs m).1
  revoke_session_step : (session_id : String) → Step m (revoke_session session_id m).1
  lock_user_step :
      (now : ℕ) (user_id : String) (duration : ℕ) → Step m (lock_user now user_id duration m).1
  unlock_user_step : (user_id : String) → Step m (unlock_user user_id m).1
  record_login_step :
      (now : ℕ) (user_id : String) (success : Bool)
      → Step m (record_login_attempt now user_id success m).1
  edit_role_step :
      (name : String) (p : Permission) (grant : Bool)
      → Step m (record m {
        roles = adjust name (if grant then add_permission p else remove_permission p) m.roles;
      })

pub data Reach (m : Manager) : Manager → Type 0 where
  here : Reach m m
  next : {n o : Manager} → Reach m n → Step n o → Reach m o
