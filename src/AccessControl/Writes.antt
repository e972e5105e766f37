-- ===== src/AccessControl/Writes.antt =====
-- The writes that the methods of core/access_control.py make, and that each keeps the invariant.
use bt_api_security.Prelude.{
  String, ℕ, ◌≡◌, refl, ◌∙◌, ◌⊎◌, inl, inr, true, Option, List, [], ◌∷◌, arith, eq_iff, nat_Eq,
  string_Eq, contains, add, discard, contains-append, contains-append,
}
use bt_api_security.Dict.{Dict, has_key, insert, adjust, IsUnique}
use bt_api_security.Dict.Laws.{
  insert-IsUnique, adjust-IsUnique, erase-IsUnique, has_key-insert_of_has_key, has_key-adjust,
  lookup-insert-cases, lookup-adjust-cases, lookup-erase-cases,
}
use bt_api_security.AccessControl.Types.{Role, User, AccessContext}
use bt_api_security.AccessControl.Manager.{Manager, add_role, remove_role}
use bt_api_security.AccessControl.Sessions.{
  revoke_session, reset_failures, count_failure, set_locked_until, clear_lock, note_login,
}
use bt_api_security.AccessControl.Invariant.{IsValid}

-- A write to a user that keeps its id, and adds no role but one that exists.
pub record IsTame (roles : Dict Role) (f : User → User) : Type 0 where
  pub keeps_id : (u : User) → (f u).user_id ≡ u.user_id
  pub adds_known :
      (u : User) (name : String)
      → contains name (f u).roles ≡ true
      → (contains name u.roles ≡ true) ⊎ (has_key name roles ≡ true)

pub adjust-IsValid :
    (m : Manager) (user_id : String) (f : User → User)
    → IsTame m.roles f
    → IsValid m
    → IsValid (record m { users = adjust user_id f m.users })
adjust-IsValid m user_id f tame v = record {
  unique_users = adjust-IsUnique user_id f m.users v.unique_users;
  unique_roles = v.unique_roles;
  unique_sessions = v.unique_sessions;
  trader_known = v.trader_known;
  own_ids = λ k u e. elim (lookup-adjust-cases user_id k f m.users e) [
    | inl (w, same, old, new) ↦ rw (new, tame.keeps_id w) (v.own_ids k w old)
    | inr old ↦ v.own_ids k u old
  ];
  roles_known = λ k name u e held. elim (lookup-adjust-cases user_id k f m.users e) [
    | inl (w, same, old, new) ↦ elim (tame.adds_known w name (rw new at held)) [
      | inl before ↦ v.roles_known k name w old before
      | inr known ↦ known
    ]
    | inr old ↦ v.roles_known k name u old held
  ];
  sessions_known = λ k c e. has_key-adjust user_id c.user f m.users ∙ v.sessions_known k c e;
}

pub insert_user-IsValid :
    (m : Manager) (u : User)
    → ((name : String) → contains name u.roles ≡ true → has_key name m.roles ≡ true)
    → IsValid m
    → IsValid (record m { users = insert u.user_id u m.users })
insert_user-IsValid m u known v = record {
  unique_users = insert-IsUnique u.user_id u m.users v.unique_users;
  unique_roles = v.unique_roles;
  unique_sessions = v.unique_sessions;
  trader_known = v.trader_known;
  own_ids = λ k w e. elim (lookup-insert-cases u.user_id k u m.users e) [
    | inl (same, new) ↦ rw new same
    | inr old ↦ v.own_ids k w old
  ];
  roles_known = λ k name w e held. elim (lookup-insert-cases u.user_id k u m.users e) [
    | inl (same, new) ↦ known name (rw new at held)
    | inr old ↦ v.roles_known k name w old held
  ];
  sessions_known =
      λ k c e. has_key-insert_of_has_key u.user_id c.user u m.users (v.sessions_known k c e);
}

-- More roles, or other permissions in them, keep the invariant.
pub roles-IsValid :
    (m : Manager) (roles : Dict Role)
    → IsUnique roles
    → ((name : String) → has_key name m.roles ≡ true → has_key name roles ≡ true)
    → IsValid m
    → IsValid (record m { roles = roles })
roles-IsValid m roles unique kept v = record {
  unique_users = v.unique_users;
  unique_roles = unique;
  unique_sessions = v.unique_sessions;
  trader_known = kept "trader" v.trader_known;
  own_ids = v.own_ids;
  roles_known = λ k name u e held. kept name (v.roles_known k name u e held);
  sessions_known = v.sessions_known;
}

pub insert_session-IsValid :
    (m : Manager) (k : String) (c : AccessContext)
    → has_key c.user m.users ≡ true
    → IsValid m
    → IsValid (record m { session_contexts = insert k c m.session_contexts })
insert_session-IsValid m k c known v = record {
  unique_users = v.unique_users;
  unique_roles = v.unique_roles;
  unique_sessions = insert-IsUnique k c m.session_contexts v.unique_sessions;
  trader_known = v.trader_known;
  own_ids = v.own_ids;
  roles_known = v.roles_known;
  sessions_known = λ j d e. elim (lookup-insert-cases k j c m.session_contexts e) [
    | inl (same, new) ↦ rw new known
    | inr old ↦ v.sessions_known j d old
  ];
}

pub revoke_session-IsValid : (m : Manager) (k : String) → IsValid m → IsValid (revoke_session k m).1
unfolding revoke_session
revoke_session-IsValid m k v = record {
  unique_users = v.unique_users;
  unique_roles = v.unique_roles;
  unique_sessions = erase-IsUnique k m.session_contexts v.unique_sessions;
  trader_known = v.trader_known;
  own_ids = v.own_ids;
  roles_known = v.roles_known;
  sessions_known = λ j d e. v.sessions_known j d (lookup-erase-cases k j m.session_contexts e).1;
}

-- The writes that the methods make.
pub note_login-IsTame : (roles : Dict Role) (now : ℕ) → IsTame roles (note_login now)
unfolding note_login
note_login-IsTame roles now = record { keeps_id = λ u. refl; adds_known = λ u name h. inl h }

pub reset_failures-IsTame : (roles : Dict Role) → IsTame roles reset_failures
unfolding reset_failures
reset_failures-IsTame roles = record { keeps_id = λ u. refl; adds_known = λ u name h. inl h }

pub count_failure-IsTame : (roles : Dict Role) → IsTame roles count_failure
unfolding count_failure
count_failure-IsTame roles = record { keeps_id = λ u. refl; adds_known = λ u name h. inl h }

pub set_locked_until-IsTame :
    (roles : Dict Role) (until : Option ℕ) → IsTame roles (set_locked_until until)
unfolding set_locked_until
set_locked_until-IsTame roles until = record {
  keeps_id = λ u. refl;
  adds_known = λ u name h. inl h;
}

pub clear_lock-IsTame : (roles : Dict Role) → IsTame roles clear_lock
unfolding clear_lock
clear_lock-IsTame roles = record { keeps_id = λ u. refl; adds_known = λ u name h. inl h }

pub contains-add-cases :
    (a b : String) (xs : List String)
    → contains a (add b xs) ≡ true
    → (contains a xs ≡ true) ⊎ (b ≡ a)
contains-add-cases a b xs h = ground (arith, eq_iff b a, contains-append a xs (b ∷ []))

pub contains_of_discard :
    (a b : String) (xs : List String) → contains a (discard b xs) ≡ true → contains a xs ≡ true
contains_of_discard a b [] h = h
contains_of_discard a b (x ∷ xs) h = ground (arith, contains_of_discard a b xs)

pub add_role-IsTame :
    (roles : Dict Role) (name : String) → has_key name roles ≡ true → IsTame roles (add_role name)
unfolding add_role
add_role-IsTame roles name known = record {
  keeps_id = λ u. refl;
  adds_known = λ u n h. elim (contains-add-cases n name u.roles h) [
    | inl before ↦ inl before
    | inr e ↦ inr (rw (← e) known)
  ];
}

pub remove_role-IsTame : (roles : Dict Role) (name : String) → IsTame roles (remove_role name)
unfolding remove_role
remove_role-IsTame roles name = record {
  keeps_id = λ u. refl;
  adds_known = λ u n h. inl (contains_of_discard n name u.roles h);
}
