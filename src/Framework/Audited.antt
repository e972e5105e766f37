-- ===== src/Framework/Audited.antt =====
-- The decorator `audit_access` of framework.py: what it logs, and what its callers see.
use bt_api_security.Prelude.{
  String, ◌≡◌, refl, ap, ◌∙◌, inl, inr, Bool, true, false, Option, some, List, [], ◌∷◌, ◌++◌, map,
  Bool-cases, nat_Eq, string_Eq, append_assoc, Result, ok, err, Exec, Result-cases,
}
use mathlib.Core.Option
use bt_api_security.Audit.Types.{EventType, SeverityLevel, high, AuditEvent, Json, post_init}
use bt_api_security.Audit.Logger.{
  AuditLogger, write_failed, write_event, notify_subscribers, sealed, log_event,
}
use bt_api_security.Framework.Guards.{
  Security, World, Global, Failure, audit, raised, Entry, new_event, user_or_anonymous, audit_body,
  audit_access,
}

-- The actions of the events that a logger holds.
abbrev pub actions : {Line : Type 0} → AuditLogger Line → List (Option String)
actions s = map (λ e. e.action) s.events

map-append : {A B : Type 0} (f : A → B) (xs ys : List A) → map f (xs ++ ys) ≡ map f xs ++ map f ys
map-append f [] ys = refl
map-append f (x ∷ xs) ys = ap (λ l. f x ∷ l) (map-append f xs ys)

module _ {Line : Type 0} (json : Json Line) where
  -- A write that succeeds.
  record Logged (writes : Bool) (e : AuditEvent) (s : AuditLogger Line) : Type 0 where
    event : AuditEvent
    after : AuditLogger Line
    done : log_event json writes e s ≡ (ok event, after)
    added : actions after ≡ actions s ++ e.action ∷ []

  written-Logged :
      (writes : Bool) (e : AuditEvent) (s : AuditLogger Line) → writes ≡ true → Logged writes e s
  unfolding log_event write_event notify_subscribers sealed
  written-Logged writes e s h = elim (Bool-cases s.enable_real_time) [
    | inl live ↦ record {
      event = sealed json s.last_hash e;
      after = (log_event json true e s).1;
      done = rw (h, live) refl;
      added = rw live (map-append (λ x. x.action) s.events (sealed json s.last_hash e ∷ []));
    }
    | inr quiet ↦ record {
      event = sealed json s.last_hash e;
      after = (log_event json true e s).1;
      done = rw (h, quiet) refl;
      added = rw quiet (map-append (λ x. x.action) s.events (sealed json s.last_hash e ∷ []));
    }
  ]

  failed-log :
      (writes : Bool) (e : AuditEvent) (s : AuditLogger Line)
      → writes ≡ false
      → log_event json writes e s ≡ (err write_failed, s)
  unfolding log_event write_event
  failed-log writes e s h = rw h refl

-- What the caller sees and which actions are logged, by what the function does and by which of the
-- two later writes succeed.
abbrev pub outcome :
    {X A : Type 0}
    → Result X A
    → (success failure : Bool) → Result (Failure X) A × List (Option String)
outcome (ok a) true w = (ok a, some "execute" ∷ some "success" ∷ [])
outcome (ok a) false true = (err (audit write_failed), some "execute" ∷ some "error" ∷ [])
outcome (ok a) false false = (err (audit write_failed), some "execute" ∷ [])
outcome (err x) w true = (err (raised x), some "execute" ∷ some "error" ∷ [])
outcome (err x) w false = (err (audit write_failed), some "execute" ∷ [])

-- Two events, one after the other.
two :
    (xs ys zs : List (Option String)) (x y : Option String)
    → ys ≡ xs ++ x ∷ []
    → zs ≡ ys ++ y ∷ []
    → zs ≡ xs ++ x ∷ y ∷ []
two xs ys zs x y h k = k ∙ ap (λ l. l ++ y ∷ []) h ∙ append_assoc xs (x ∷ []) (y ∷ [])

module _ {Line X F A : Type 0} (json : Json Line) (before success failure : Entry)
    (text_of : Failure X → String) (name args kwargs : String) (type : EventType)
    (severity : SeverityLevel) (given : Option (Option String)) (func : Exec X F A) where
  -- How the body of `audit_access` ends.
  abbrev Ends : World Line F → Type 0
  Ends w =
      let r =
        audit_body json before success failure text_of name args kwargs type severity given func
          w in
      let table = outcome (func w.rest).0 success.writes failure.writes in
      (r.0 ≡ table.0)
      × (r.1.rest ≡ (func w.rest).1)
      × (actions r.1.security.audit_logger ≡ actions w.security.audit_logger ++ table.1)

  body-Ends : (w : World Line F) → before.writes ≡ true → Ends w
  unfolding audit_body new_event post_init
  body-Ends w first =
      let user_id = user_or_anonymous given in
      let a =
        written-Logged json before.writes
          (new_event json before type severity user_id name "execute" "success"
            (("args", args) ∷ ("kwargs", kwargs) ∷ []))
          w.security.audit_logger first in
      let ev_failure = λ (x : Failure X).
        new_event json failure type high user_id name "error" "failure"
          (("error", text_of x) ∷ []) in
      elim (Result-cases (func w.rest).0) [
        | inl (v, returned) ↦ elim (Bool-cases success.writes) [
          | inl well ↦
              let b =
                written-Logged json success.writes
                  (new_event json success type severity user_id name "success" "success" []) a.after
                  well in
              rw (a.done, returned, b.done, well)
                (
                  refl,
                  refl,
                  two (actions w.security.audit_logger) (actions a.after) (actions b.after)
                      (some "execute") (some "success") a.added b.added,
                )
          | inr badly ↦
              let b =
                failed-log json success.writes
                  (new_event json success type severity user_id name "success" "success" []) a.after
                  badly in
              elim (Bool-cases failure.writes) [
                | inl well ↦
                    let c =
                      written-Logged json failure.writes (ev_failure (audit write_failed)) a.after
                        well in
                    rw (a.done, returned, b, c.done, badly, well)
                      (
                        refl,
                        refl,
                        two (actions w.security.audit_logger) (actions a.after) (actions c.after)
                            (some "execute") (some "error") a.added c.added,
                      )
                | inr worse ↦
                    let c =
                      failed-log json failure.writes (ev_failure (audit write_failed)) a.after
                        worse in
                    rw (a.done, returned, b, c, badly, worse) (refl, refl, a.added)
              ]
        ]
        | inr (x, threw) ↦ elim (Bool-cases failure.writes) [
          | inl well ↦
              let c = written-Logged json failure.writes (ev_failure (raised x)) a.after well in
              rw (a.done, threw, c.done, well)
                (
                  refl,
                  refl,
                  two (actions w.security.audit_logger) (actions a.after) (actions c.after)
                      (some "execute") (some "error") a.added c.added,
                )
          | inr worse ↦
              let c = failed-log json failure.writes (ev_failure (raised x)) a.after worse in
              rw (a.done, threw, c, worse) (refl, refl, a.added)
        ]
      ]

-- With a framework, a call of a function that `audit_access` wraps is as follows. If the first event
-- cannot be written, the call raises that error, the function does not run and nothing changes.
-- Otherwise the function runs once, and the actions that are logged and what the caller sees are
-- those of `outcome`: in particular, if the function returned but its success cannot be written, the
-- call raises, and logs an error if it can.
pub audited_outcome :
    {Line X F A : Type 0} (json : Json Line) (before success failure : Entry)
    (text_of : Failure X → String) (name args kwargs : String) (type : EventType)
    (severity : SeverityLevel) (given : Option (Option String)) (func : Exec X F A)
    (fw : Security Line) (rest : F)
    → let g : Global Line F = record { framework = some fw; rest = rest } in
      let r =
        audit_access json before success failure text_of name args kwargs type severity given func
          g in
      let table = outcome (func rest).0 success.writes failure.writes in
      (before.writes ≡ false → r ≡ (err (audit write_failed), g))
      × (before.writes ≡ true
          → (r.0 ≡ table.0)
            × (r.1.rest ≡ (func rest).1)
            × (Option.map (λ s. actions s.audit_logger) r.1.framework
                ≡ some (actions fw.audit_logger ++ table.1)))
unfolding audit_access audit_body
audited_outcome json before success failure text_of name args kwargs type severity given func fw
      rest =
    let w : World _ _ = record { security = fw; rest = rest } in
    let first =
      new_event json before type severity (user_or_anonymous given) name "execute" "success"
        (("args", args) ∷ ("kwargs", kwargs) ∷ []) in
    (
      λ unwritten. rw (failed-log json before.writes first fw.audit_logger unwritten) refl,
      λ written.
          let (a, b, c) =
            body-Ends json before success failure text_of name args kwargs type severity given func
              w written in
          (a, b, ap some c),
    )
