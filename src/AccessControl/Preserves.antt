-- ===== src/AccessControl/Preserves.antt =====
-- Every method of core/access_control.py keeps the invariant, so every reachable state has it.
use bt_api_security.Prelude.{
  String, ℕ, ◌+◌, ◌*◌, ◌≡◌, refl, ◌∙◌, ◌⊎◌, inl, inr, Bool, true, false, not, ◌||◌, Option, some,
  [], ◌∷◌, arith, eq_iff, leb, Bool-cases, Option-cases, nat_Eq, string_Eq, contains, second,
}
use bt_api_security.Dict.{Dict, lookup, has_key, insert, adjust}
use bt_api_security.Dict.Laws.{
  insert-IsUnique, adjust-IsUnique, has_key_of_lookup, has_key-insert_of_has_key, has_key-adjust,
}
use bt_api_security.AccessControl.Types.{Role, User, Value}
use bt_api_security.AccessControl.Roles.{new_role, system_roles}
use bt_api_security.AccessControl.Manager.{
  Manager, init, create_user, create_role, assign_role, revoke_role, add_role, remove_role,
  new_user,
}
use bt_api_security.AccessControl.Sessions.{
  record_login_attempt, lock_user, unlock_user, create_session, ContextAttrs, reset_failures,
  count_failure, set_locked_until, clear_lock, note_login, session_context,
}
use bt_api_security.AccessControl.Invariant.{
  IsValid, Step, create_user_step, create_role_step, assign_role_step, revoke_role_step,
  create_session_step, revoke_session_step, lock_user_step, unlock_user_step, record_login_step,
  edit_role_step, Reach, here, next,
}
use bt_api_security.AccessControl.Writes.{
  IsTame, adjust-IsValid, insert_user-IsValid, roles-IsValid, insert_session-IsValid,
  revoke_session-IsValid, note_login-IsTame, reset_failures-IsTame, count_failure-IsTame,
  set_locked_until-IsTame, clear_lock-IsTame, add_role-IsTame, remove_role-IsTame,
}
use bt_api_security.AccessControl.Manager.{is_locked}

module _ (m : Manager) (v : IsValid m) where
  create_user-IsValid :
      (id name email : String) (attributes : Dict Value) (now : ℕ)
      → IsValid (create_user id name email attributes now m).1
  unfolding create_user
  create_user-IsValid id name email attributes now = elim (Bool-cases (has_key id m.users)) [
    | inl taken ↦ rw taken v
    | inr free ↦ rw free (
        insert_user-IsValid m (add_role "trader" (new_user id name email attributes now))
          only_trader v)
  ]
    where
      only_trader :
          (role : String) → contains role ("trader" ∷ []) ≡ true → has_key role m.roles ≡ true
      only_trader role h =
          let e : "trader" ≡ role = ground (arith, eq_iff "trader" role) in rw (← e) v.trader_known

  create_role-IsValid :
      (name description : String) (attributes : Dict Value) (now : ℕ) (id : String)
      → IsValid (create_role name description attributes now id m).1
  unfolding create_role
  create_role-IsValid name description attributes now id =
      elim (Bool-cases (has_key name m.roles)) [
        | inl taken ↦ rw taken v
        | inr free ↦ rw free (
            roles-IsValid m
              (insert name (new_role name description false attributes now id) m.roles)
              (insert-IsUnique name _ m.roles v.unique_roles)
              (λ j h. has_key-insert_of_has_key name j _ m.roles h) v)
      ]

  assign_role-IsValid : (user_id name : String) → IsValid (assign_role user_id name m).1
  unfolding assign_role
  assign_role-IsValid user_id name = elim (Option-cases (lookup user_id m.users)) [
    | inl e ↦ rw e v
    | inr (u, e) ↦ elim (Option-cases (lookup name m.roles)) [
      | inl f ↦ rw (e, f) v
      | inr (r, f) ↦
          rw (e, f)
            (adjust-IsValid m user_id (add_role name)
              (add_role-IsTame m.roles name (has_key_of_lookup name m.roles f)) v)
    ]
  ]

  revoke_role-IsValid : (user_id name : String) → IsValid (revoke_role user_id name m).1
  unfolding revoke_role
  revoke_role-IsValid user_id name = elim (Option-cases (lookup user_id m.users)) [
    | inl e ↦ rw e v
    | inr (u, e) ↦
        rw e (adjust-IsValid m user_id (remove_role name) (remove_role-IsTame m.roles name) v)
  ]

  create_session-IsValid :
      (t t' t'' : ℕ) (session_id user_id : String) (attrs : ContextAttrs)
      → IsValid (create_session t t' t'' session_id user_id attrs m).1
  unfolding create_session
  create_session-IsValid t t' t'' session_id user_id attrs =
      elim (Option-cases (lookup user_id m.users)) [
        | inl e ↦ rw e v
        | inr (u, e) ↦ elim (Bool-cases (not u.is_active || is_locked t u)) [
          | inl refused ↦
              let same : (create_session t t' t'' session_id user_id attrs m).1 ≡ m =
                ground arith in
              rw same v
          | inr allowed ↦
              let done : (create_session t t' t'' session_id user_id attrs m).1 ≡ record m {
                session_contexts =
                    insert session_id (session_context user_id attrs t') m.session_contexts;
                users = adjust user_id (note_login t'') m.users;
              } =
                ground arith in
              rw done (
                adjust-IsValid
                  (record m {
                    session_contexts =
                        insert session_id (session_context user_id attrs t') m.session_contexts;
                  })
                  user_id (note_login t'') (note_login-IsTame m.roles t'')
                  (insert_session-IsValid m session_id (session_context user_id attrs t')
                    (has_key_of_lookup user_id m.users e) v))
        ]
      ]

  write-IsValid :
      (user_id : String) (f : User → User) (after : Manager)
      → IsTame m.roles f
      → (after ≡ m) ⊎ (after ≡ record m { users = adjust user_id f m.users })
      → IsValid after
  write-IsValid user_id f after tame (inl same) = rw same v
  write-IsValid user_id f after tame (inr done) = rw done (adjust-IsValid m user_id f tame v)

  lock_user-IsValid :
      (now : ℕ) (user_id : String) (duration : ℕ) → IsValid (lock_user now user_id duration m).1
  unfolding lock_user
  lock_user-IsValid now user_id duration =
      write-IsValid user_id (set_locked_until (some (now + duration * second))) _
        (set_locked_until-IsTame m.roles _) (ground arith)

  unlock_user-IsValid : (user_id : String) → IsValid (unlock_user user_id m).1
  unfolding unlock_user
  unlock_user-IsValid user_id =
      write-IsValid user_id clear_lock _ (clear_lock-IsTame m.roles) (ground arith)

  edit_role-IsValid :
      (name : String) (f : Role → Role) → IsValid (record m { roles = adjust name f m.roles })
  edit_role-IsValid name f =
      roles-IsValid m (adjust name f m.roles) (adjust-IsUnique name f m.roles v.unique_roles)
        (λ j h. has_key-adjust name j f m.roles ∙ h) v

module _ (m : Manager) (v : IsValid m) (now : ℕ) (user_id : String) where
  failed_login-IsValid : IsValid (record_login_attempt now user_id false m).1
  unfolding record_login_attempt
  failed_login-IsValid = elim (Option-cases (lookup user_id m.users)) [
    | inl e ↦
        let same : (record_login_attempt now user_id false m).1 ≡ m = ground arith in rw same v
    | inr (u, e) ↦
        let counted = adjust-IsValid m user_id count_failure (count_failure-IsTame m.roles) v in
        elim (Bool-cases (leb 3 (u.failed_login_attempts + 1))) [
          | inl third ↦
              let done : (record_login_attempt now user_id false m).1
                  ≡ (lock_user now user_id 900
                      (record m { users = adjust user_id count_failure m.users })).1 =
                ground arith in
              rw done (
                lock_user-IsValid (record m { users = adjust user_id count_failure m.users })
                  counted now user_id 900)
          | inr few ↦
              let done : (record_login_attempt now user_id false m).1
                  ≡ record m { users = adjust user_id count_failure m.users } =
                ground arith in
              rw done counted
        ]
  ]

  record_login_attempt-IsValid :
      (success : Bool) → IsValid (record_login_attempt now user_id success m).1
  unfolding record_login_attempt
  record_login_attempt-IsValid true =
      write-IsValid m v user_id reset_failures _ (reset_failures-IsTame m.roles) (ground arith)
  record_login_attempt-IsValid false = failed_login-IsValid

Step-IsValid : {m n : Manager} → Step m n → IsValid m → IsValid n
Step-IsValid {m} (create_user_step id name email attributes now) v =
    create_user-IsValid m v id name email attributes now
Step-IsValid {m} (create_role_step name description attributes now id) v =
    create_role-IsValid m v name description attributes now id
Step-IsValid {m} (assign_role_step user_id name) v = assign_role-IsValid m v user_id name
Step-IsValid {m} (revoke_role_step user_id name) v = revoke_role-IsValid m v user_id name
Step-IsValid {m} (create_session_step t t' t'' session_id user_id attrs) v =
    create_session-IsValid m v t t' t'' session_id user_id attrs
Step-IsValid {m} (revoke_session_step session_id) v = revoke_session-IsValid m session_id v
Step-IsValid {m} (lock_user_step now user_id duration) v =
    lock_user-IsValid m v now user_id duration
Step-IsValid {m} (unlock_user_step user_id) v = unlock_user-IsValid m v user_id
Step-IsValid {m} (record_login_step now user_id success) v =
    record_login_attempt-IsValid m v now user_id success
Step-IsValid {m} (edit_role_step name p grant) v = edit_role-IsValid m v name _

init-IsValid :
    (clock : String → ℕ) (uuid : String → String) (key : Option String)
    → IsValid (init clock uuid key)
unfolding init system_roles has_key lookup
init-IsValid clock uuid key = record {
  unique_users = tt;
  unique_roles = (refl, (refl, (refl, tt)));
  unique_sessions = tt;
  trader_known = refl;
  own_ids = λ k u e. cc;
  roles_known = λ k name u e. cc;
  sessions_known = λ k c e. cc;
}

-- In every state that the methods of a new manager, and edits of its role objects, lead to: no
-- key stands twice, a user is filed under its own id and holds only roles that exist, the role
-- `trader` of new users exists, and every session belongs to a user that exists.
pub Reach-IsValid :
    (clock : String → ℕ) (uuid : String → String) (key : Option String) {m : Manager}
    → Reach (init clock uuid key) m
    → IsValid m
Reach-IsValid clock uuid key here = init-IsValid clock uuid key
Reach-IsValid clock uuid key (next r s) = Step-IsValid s (Reach-IsValid clock uuid key r)
