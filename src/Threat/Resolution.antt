-- ===== src/Threat/Resolution.antt =====
-- `resolve_threat` of core/threat_detection.py: which event it resolves, and that two events of one
-- second share an id.
use bt_api_security.Prelude.{
  String, ℕ, ◌≡◌, refl, sym, ap, ◌∙◌, inl, inr, false, List, [], ◌∷◌, ◌++◌, eq_iff, Bool-cases,
  ◌==◌, nat_Eq, string_Eq, whole_seconds,
}
use bt_api_security.Dict.{Dict}
use bt_api_security.Prelude.Decimal.{decimal}
use bt_api_security.Threat.Types.{ThreatEvent, Detail, ThreatDetector}
use bt_api_security.Threat.Detector.{detect_unauthorized_access_attempt, unauthorized_event}
use bt_api_security.Prelude.Text.{◌^◌}
use bt_api_security.Threat.Responses.{resolve_threat, resolve_first, mark_resolved}

-- The list ends with `e`, and has an event of the same id before it.
pub record IsShadowed (e : ThreatEvent) (es : List ThreatEvent) : Type 0 where
  pub before : List ThreatEvent
  pub first : ThreatEvent
  pub last : es ≡ before ++ first ∷ e ∷ []
  pub same_id : first.event_id ≡ e.event_id

module _ (now : ℕ) (note : String) (e : ThreatEvent) where
  -- One call leaves the last event as it is.
  resolve-append :
      (before : List ThreatEvent) (first : ThreatEvent)
      → first.event_id ≡ e.event_id
      → IsShadowed e (resolve_first now e.event_id note (before ++ first ∷ e ∷ [])).1
  unfolding resolve_first
  resolve-append [] first same =
      rw ((eq_iff first.event_id e.event_id).1 same)
        (record { before = []; first = mark_resolved now note first; last = refl; same_id = same })
  resolve-append (x ∷ before) first same = elim (Bool-cases (x.event_id == e.event_id)) [
    | inl found ↦ rw found (record {
      before = mark_resolved now note x ∷ before;
      first = first;
      last = refl;
      same_id = same;
    })
    | inr other ↦
        let rest = resolve-append before first same in
        rw other (record {
          before = x ∷ rest.before;
          first = rest.first;
          last = ap (λ l. x ∷ l) rest.last;
          same_id = rest.same_id;
        })
  ]

-- Calls of `resolve_threat` with the same id, at the given times and with the given notes.
unfoldable pub resolve_each : String → List (ℕ × String) → ThreatDetector → ThreatDetector
resolve_each event_id [] s = s
resolve_each event_id ((now, note) ∷ calls) s =
    resolve_each event_id calls (resolve_threat now event_id note s).1

resolve_each-IsShadowed :
    (e : ThreatEvent) (calls : List (ℕ × String)) (s : ThreatDetector)
    → IsShadowed e s.threat_events
    → IsShadowed e (resolve_each e.event_id calls s).threat_events
unfolding resolve_each resolve_threat
resolve_each-IsShadowed e [] s h = h
resolve_each-IsShadowed e ((now, note) ∷ calls) s h =
    resolve_each-IsShadowed e calls (resolve_threat now e.event_id note s).1
      (rw (← h.last) at (resolve-append now note e h.before h.first h.same_id))

append-two :
    (xs : List ThreatEvent) (x y : ThreatEvent) → (xs ++ x ∷ []) ++ y ∷ [] ≡ xs ++ x ∷ y ∷ []
append-two [] x y = refl
append-two (z ∷ xs) x y = ap (λ l. z ∷ l) (append-two xs x y)

module _ (now stamped : ℕ) (user_id resource ip : String) (details : Dict Detail)
    (s : ThreatDetector) where
  attempt-event_id :
      (detect_unauthorized_access_attempt now stamped user_id resource ip details s).0.event_id
      ≡ ("unauthorized_" ^ decimal (whole_seconds now))
  unfolding detect_unauthorized_access_attempt unauthorized_event
  attempt-event_id = refl

  attempt-unresolved :
      (detect_unauthorized_access_attempt now stamped user_id resource ip details s).0.resolved
      ≡ false
  unfolding detect_unauthorized_access_attempt unauthorized_event
  attempt-unresolved = refl

module _ (s : ThreatDetector) (now later stamped stamped' : ℕ)
    (user_id user_id' resource resource' ip ip' : String) (details details' : Dict Detail) where
  -- The first of two attempts, and the second, each with the detector after it.
  abbrev pub first_attempt : ThreatEvent × ThreatDetector
  first_attempt = detect_unauthorized_access_attempt now stamped user_id resource ip details s

  abbrev pub second_attempt : ThreatEvent × ThreatDetector
  second_attempt =
      detect_unauthorized_access_attempt later stamped' user_id' resource' ip' details'
        first_attempt.1

  same_ids :
      whole_seconds now ≡ whole_seconds later → first_attempt.0.event_id ≡ second_attempt.0.event_id
  same_ids same =
      attempt-event_id now stamped user_id resource ip details s
      ∙ ap (λ t. "unauthorized_" ^ decimal t) same
      ∙ sym (attempt-event_id later stamped' user_id' resource' ip' details' first_attempt.1)

  second_unresolved : second_attempt.0.resolved ≡ false
  second_unresolved =
      attempt-unresolved later stamped' user_id' resource' ip' details' first_attempt.1

  second_events :
      second_attempt.1.threat_events ≡ s.threat_events ++ first_attempt.0 ∷ second_attempt.0 ∷ []
  unfolding detect_unauthorized_access_attempt
  second_events = append-two s.threat_events _ _

  -- Two unauthorized attempts in the same second: their events have the same id, and however often
  -- that id is resolved, the second event stays unresolved at the end of the list.
  pub same_second_unresolved :
      (calls : List (ℕ × String))
      → whole_seconds now ≡ whole_seconds later
      → (first_attempt.0.event_id ≡ second_attempt.0.event_id)
        × (second_attempt.0.resolved ≡ false)
        × IsShadowed second_attempt.0
            (resolve_each second_attempt.0.event_id calls second_attempt.1).threat_events
  same_second_unresolved calls same = (
    same_ids same,
    second_unresolved,
    resolve_each-IsShadowed second_attempt.0 calls second_attempt.1 (record {
      before = s.threat_events;
      first = first_attempt.0;
      last = second_events;
      same_id = same_ids same;
    }),
  )
