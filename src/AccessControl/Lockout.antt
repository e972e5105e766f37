-- ===== src/AccessControl/Lockout.antt =====
-- Failed logins lock an account: `record_login_attempt` and `is_locked` of core/access_control.py.
use bt_api_security.Prelude.{
  String, ℕ, ◌+◌, ◌*◌, ◌≤◌, ◌<◌, ◌≡◌, refl, inl, inr, false, Option, some, List, [], ◌∷◌, arith,
  leb, Bool-cases, nat_Eq, string_Eq, length, ok, err, second, LocalTime,
}
use bt_api_security.Dict.{lookup, adjust}
use bt_api_security.Dict.Laws.{lookup-adjust_self}
use bt_api_security.AccessControl.Types.{
  PermissionLevel, Resource, User, AccessContext, access_denied,
}
use bt_api_security.AccessControl.Manager.{Manager, is_locked, check_permission, decide_for}
use bt_api_security.AccessControl.Sessions.{
  record_login_attempt, unlock_user, create_session, ContextAttrs, count_failure, set_locked_until,
  clear_lock,
}

-- Failed attempts at the given times.
unfoldable pub fail_each : String → List ℕ → Manager → Manager
fail_each user_id [] m = m
fail_each user_id (t ∷ ts) m = fail_each user_id ts (record_login_attempt t user_id false m).1

module _ (user_id : String) where
  -- One failed attempt: the count goes up, and from the third on the account is locked for
  -- 900 seconds.
  fail_once :
      (now : ℕ) (m : Manager) (u : User)
      → lookup user_id m.users ≡ some u
      → (u' : User) × (lookup user_id (record_login_attempt now user_id false m).1.users ≡ some u')
        × (u'.failed_login_attempts ≡ u.failed_login_attempts + 1)
        × (u'.is_active ≡ u.is_active)
        × (3 ≤ u.failed_login_attempts + 1 → u'.locked_until ≡ some (now + 900 * second))
  unfolding record_login_attempt
  fail_once now m u known = elim (Bool-cases (leb 3 (u.failed_login_attempts + 1))) [
    | inl third ↦ (
      set_locked_until (some (now + 900 * second)) (count_failure u),
      ground (
        arith,
        lookup-adjust_self user_id count_failure m.users known,
        lookup-adjust_self user_id (set_locked_until (some (now + 900 * second)))
            (adjust user_id count_failure m.users)
            (lookup-adjust_self user_id count_failure m.users known),
      ),
      refl,
      refl,
      λ _. refl,
    )
    | inr few ↦ (
      count_failure u,
      ground (arith, lookup-adjust_self user_id count_failure m.users known),
      refl,
      refl,
      λ h. ground arith,
    )
  ]

  fail_each_counts :
      (ts : List ℕ) (m : Manager) (u : User)
      → lookup user_id m.users ≡ some u
      → (u' : User) × (lookup user_id (fail_each user_id ts m).users ≡ some u')
        × (u'.failed_login_attempts ≡ u.failed_login_attempts + length ts)
  unfolding fail_each
  fail_each_counts [] m u known = (u, known, omega arith)
  fail_each_counts (t ∷ ts) m u known =
      let (v, stored, counted, _, _) = fail_once t m u known in
      let (w, last, total) =
        fail_each_counts ts (record_login_attempt t user_id false m).1 v stored in
      (w, last, omega arith)

  -- After two or more failed attempts, one more locks the account for 900 seconds.
  third_failure :
      (ts : List ℕ) (last : ℕ) (m : Manager) (u : User)
      → lookup user_id m.users ≡ some u
      → 2 ≤ length ts
      → (u' : User) × (lookup user_id
            (record_login_attempt last user_id false (fail_each user_id ts m)).1.users
          ≡ some u')
        × (u'.locked_until ≡ some (last + 900 * second))
  third_failure ts last m u known many =
      let (v, stored, counted) = fail_each_counts ts m u known in
      let (w, kept, _, _, locked) = fail_once last (fail_each user_id ts m) v stored in
      (w, kept, locked (omega arith))

module _ (local_time : ℕ → LocalTime) (now : ℕ) (m : Manager) (user_id : String) (u : User)
    (until : ℕ) (known : lookup user_id m.users ≡ some u) (locked : u.locked_until ≡ some until)
    (early : now < until) where
  locked-check_permission :
      (resource : Resource) (action : String) (level : PermissionLevel)
      (context : Option AccessContext)
      → check_permission local_time now user_id resource action level context m ≡ (ok false, m)
  unfolding check_permission decide_for is_locked
  locked-check_permission resource action level context = ground arith

  locked-create_session :
      (stamped logged : ℕ) (session_id : String) (attrs : ContextAttrs)
      → create_session now stamped logged session_id user_id attrs m
        ≡ (err (access_denied user_id "session" "create" "Account inactive or locked"), m)
  unfolding create_session is_locked
  locked-create_session stamped logged session_id attrs = ground arith

-- After two or more failed logins of a known user, one more at `last` locks the account: until
-- 900 seconds later every permission is refused, whatever the roles and the context, and no
-- session is created; both leave the manager as it is.
pub three_failures_lock :
    (local_time : ℕ → LocalTime) (user_id : String) (ts : List ℕ) (last now : ℕ) (m : Manager)
    (u : User) (resource : Resource) (action : String) (level : PermissionLevel)
    (context : Option AccessContext) (stamped logged : ℕ) (session_id : String)
    (attrs : ContextAttrs)
    → lookup user_id m.users ≡ some u
    → 2 ≤ length ts
    → now < last + 900 * second
    → let m' = (record_login_attempt last user_id false (fail_each user_id ts m)).1 in
      (check_permission local_time now user_id resource action level context m' ≡ (ok false, m'))
      × (create_session now stamped logged session_id user_id attrs m'
          ≡ (err (access_denied user_id "session" "create" "Account inactive or locked"), m'))
three_failures_lock local_time user_id ts last now m u resource action level context stamped logged
      session_id attrs known many early =
    let m' = (record_login_attempt last user_id false (fail_each user_id ts m)).1 in
    let (w, stored, locked) = third_failure user_id ts last m u known many in
    (
      locked-check_permission local_time now m' user_id w (last + 900 * second) stored locked early
          resource action level context,
      locked-create_session local_time now m' user_id w (last + 900 * second) stored locked early
          stamped logged session_id attrs,
    )

-- Unlocking a known user ends the lock at once, forgets the failed attempts and keeps the roles.
pub unlock_user_unlocks :
    (user_id : String) (now : ℕ) (m : Manager) (u : User)
    → lookup user_id m.users ≡ some u
    → (u' : User) × (lookup user_id (unlock_user user_id m).1.users ≡ some u')
      × (is_locked now u' ≡ false)
      × (u'.failed_login_attempts ≡ 0)
      × (u'.roles ≡ u.roles)
unfolding unlock_user is_locked
unlock_user_unlocks user_id now m u known = (
  clear_lock u,
  ground (arith, lookup-adjust_self user_id clear_lock m.users known),
  refl,
  refl,
  refl,
)
