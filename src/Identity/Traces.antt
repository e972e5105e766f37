-- ===== src/Identity/Traces.antt =====
-- Sequences of calls to core/identity_manager.py that change its state.
use bt_api_security.Prelude.{
  String, ℕ, ◌≡◌, ◌≢◌, Option, none, List, nat_Eq, string_Eq, contains, err,
}
use bt_api_security.Dict.{Dict, lookup}
use bt_api_security.Identity.Types.{
  IdentityProvider, Value, IdentityError, Config, IdentityManager, Bcrypt,
}
use bt_api_security.Identity.Accounts.{
  Update, update_identity, suspend_user, activate_user, lock_user,
}
use bt_api_security.Identity.Manager.{
  init, create_identity, authenticate_user, create_group, add_user_to_group, remove_user_from_group,
}
use bt_api_security.Identity.Queries.{get_user_groups, get_group_members}
use bt_api_security.Identity.Membership.{
  IsConsistent, init-IsConsistent, write_known-IsConsistent, new_group-IsConsistent,
  add_user-IsConsistent, remove_user-IsConsistent, never-raise, create-IsConsistent,
  authenticate-IsConsistent,
}

-- A drawn id is new.
pub data Step (bcrypt : Bcrypt) (s : IdentityManager) : IdentityManager → Type 0 where
  create_step :
      (uuid salt : String) (now changed_at : ℕ) (username email full_name : String)
      (password : Option String) (provider : IdentityProvider) (attributes : Dict Value)
      → lookup uuid s.identities ≡ none
      → Step bcrypt s
          (create_identity bcrypt uuid salt now changed_at username email full_name password
            provider attributes s).1
  authenticate_step :
      (now : ℕ) (username password : String) (provider : IdentityProvider)
      → Step bcrypt s (authenticate_user bcrypt now username password provider s).1
  create_group_step :
      (uuid : String) (now : ℕ) (name description : String) (parents : Option (List String))
      → lookup uuid s.all_groups ≡ none
      → Step bcrypt s (create_group uuid now name description parents s).1
  add_step :
      (identity_id group_id : String) → Step bcrypt s (add_user_to_group identity_id group_id s).1
  remove_step :
      (identity_id group_id : String)
      → Step bcrypt s (remove_user_from_group identity_id group_id s).1
  update_step :
      (identity_id : String) (updates : List Update)
      → Step bcrypt s (update_identity identity_id updates s).1
  suspend_step :
      (now : ℕ) (identity_id reason : String)
      → Step bcrypt s (suspend_user now identity_id reason s).1
  activate_step : (identity_id : String) → Step bcrypt s (activate_user identity_id s).1
  lock_step :
      (now : ℕ) (identity_id reason : String) → Step bcrypt s (lock_user now identity_id reason s).1

pub data Reach (bcrypt : Bcrypt) (s : IdentityManager) : IdentityManager → Type 0 where
  here : Reach bcrypt s s
  next : {t u : IdentityManager} → Reach bcrypt s t → Step bcrypt t u → Reach bcrypt s u

module _ (bcrypt : Bcrypt) where
  Step-IsConsistent : {s t : IdentityManager} → Step bcrypt s t → IsConsistent s → IsConsistent t
  unfolding update_identity suspend_user activate_user lock_user
  Step-IsConsistent {s}
        (create_step uuid salt now changed_at username email full_name password provider attributes
          fresh)
        h =
      create-IsConsistent bcrypt uuid salt now changed_at username email full_name password provider
        attributes s fresh h
  Step-IsConsistent {s} (authenticate_step now username password provider) h =
      authenticate-IsConsistent bcrypt now username password provider s h
  Step-IsConsistent {s} (create_group_step uuid now name description parents fresh) h =
      new_group-IsConsistent s uuid now name description parents fresh h
  Step-IsConsistent {s} (add_step identity_id group_id) h =
      add_user-IsConsistent s identity_id group_id h
  Step-IsConsistent {s} (remove_step identity_id group_id) h =
      remove_user-IsConsistent s identity_id group_id h
  Step-IsConsistent {s} (update_step identity_id updates) h =
      write_known-IsConsistent s identity_id _ h
  Step-IsConsistent {s} (suspend_step now identity_id reason) h =
      write_known-IsConsistent s identity_id _ h
  Step-IsConsistent {s} (activate_step identity_id) h = write_known-IsConsistent s identity_id _ h
  Step-IsConsistent {s} (lock_step now identity_id reason) h =
      write_known-IsConsistent s identity_id _ h

  Reach-IsConsistent : {s t : IdentityManager} → Reach bcrypt s t → IsConsistent s → IsConsistent t
  Reach-IsConsistent here h = h
  Reach-IsConsistent (next r step) h = Step-IsConsistent step (Reach-IsConsistent r h)

-- In every state that calls lead to from a new manager, with drawn ids that are new, the groups of a
-- user are exactly the groups that have the user as a member, and adding a user to a group or
-- removing one raises no error.
pub membership_agrees :
    (bcrypt : Bcrypt) (c : Config) (now : ℕ) (s : IdentityManager) (identity_id group_id : String)
    (x : IdentityError)
    → Reach bcrypt (init c now) s
    → (contains group_id (get_user_groups identity_id s)
        ≡ contains identity_id (get_group_members group_id s))
      × ((add_user_to_group identity_id group_id s).0 ≢ err x)
      × ((remove_user_from_group identity_id group_id s).0 ≢ err x)
membership_agrees bcrypt c now s identity_id group_id x r =
    let h = Reach-IsConsistent bcrypt r (init-IsConsistent c now) in
    let (adds, removes) = never-raise s identity_id group_id x h in
    (h.agrees identity_id group_id, adds, removes)
