-- ===== src/Monitoring/Reading.antt =====
-- What monitoring/security_monitoring.py leaves of the alerts when they are read.
use bt_api_security.Prelude.{
  ℕ, zero, suc, ◌≤◌, ◌≡◌, refl, ap, ◌∙◌, inl, inr, Bool, not, Option, none, some, List, [], ◌∷◌,
  arith, ltb, Bool-cases, ◌==◌, nat_Eq, string_Eq, length, take, All,
}
use bt_api_security.Monitoring.Alerts.{
  AlertSeverity, critical, high, alert_severity_Eq, SecurityAlert, SecurityMonitoring,
  insert_newest, newest_first, with_severity, with_flag, get_alerts, count, is_recent,
  get_monitoring_summary,
}

-- No alert is older than one after it.
abbrev pub IsNewestFirst : List SecurityAlert → Type 0
IsNewestFirst [] = Unit
IsNewestFirst (a ∷ xs) = All (λ b. b.timestamp ≤ a.timestamp) xs × IsNewestFirst xs

All-insert_newest :
    (n : ℕ) (a : SecurityAlert) (xs : List SecurityAlert)
    → a.timestamp ≤ n
    → All (λ b. b.timestamp ≤ n) xs
    → All (λ b. b.timestamp ≤ n) (insert_newest a xs)
unfolding insert_newest
All-insert_newest n a [] h all_of = (h, tt)
All-insert_newest n a (b ∷ xs) h all_of = elim (Bool-cases (ltb a.timestamp b.timestamp)) [
  | inl older ↦ rw older (all_of.0, All-insert_newest n a xs h all_of.1)
  | inr newer ↦ rw newer (h, all_of)
]

All-le :
    (m n : ℕ) (xs : List SecurityAlert)
    → m ≤ n
    → All (λ b. b.timestamp ≤ m) xs
    → All (λ b. b.timestamp ≤ n) xs
All-le m n [] h all_of = tt
All-le m n (b ∷ xs) h all_of = (omega (arith, all_of.0, h), All-le m n xs h all_of.1)

insert_newest-IsNewestFirst :
    (a : SecurityAlert) (xs : List SecurityAlert)
    → IsNewestFirst xs
    → IsNewestFirst (insert_newest a xs)
unfolding insert_newest
insert_newest-IsNewestFirst a [] h = (tt, tt)
insert_newest-IsNewestFirst a (b ∷ xs) h = elim (Bool-cases (ltb a.timestamp b.timestamp)) [
  | inl older ↦
      rw older (
        All-insert_newest b.timestamp a xs (ground arith) h.0,
        insert_newest-IsNewestFirst a xs h.1,
      )
  | inr newer ↦
      let le : b.timestamp ≤ a.timestamp = ground arith in
      rw newer ((le, All-le b.timestamp a.timestamp xs le h.0), h)
]

newest_first-IsNewestFirst : (xs : List SecurityAlert) → IsNewestFirst (newest_first xs)
unfolding newest_first
newest_first-IsNewestFirst [] = tt
newest_first-IsNewestFirst (a ∷ xs) =
    insert_newest-IsNewestFirst a (newest_first xs) (newest_first-IsNewestFirst xs)

All-take :
    (n m : ℕ) (xs : List SecurityAlert)
    → All (λ b. b.timestamp ≤ m) xs
    → All (λ b. b.timestamp ≤ m) (take n xs)
All-take zero m xs h = tt
All-take (suc n) m [] h = tt
All-take (suc n) m (b ∷ xs) h = (h.0, All-take n m xs h.1)

take-IsNewestFirst :
    (n : ℕ) (xs : List SecurityAlert) → IsNewestFirst xs → IsNewestFirst (take n xs)
take-IsNewestFirst zero xs h = tt
take-IsNewestFirst (suc n) [] h = tt
take-IsNewestFirst (suc n) (b ∷ xs) h = (All-take n b.timestamp xs h.0, take-IsNewestFirst n xs h.1)

length-insert_newest :
    (a : SecurityAlert) (xs : List SecurityAlert) → length (insert_newest a xs) ≡ suc (length xs)
unfolding insert_newest
length-insert_newest a [] = refl
length-insert_newest a (b ∷ xs) = ground (arith, length-insert_newest a xs)

length-newest_first : (xs : List SecurityAlert) → length (newest_first xs) ≡ length xs
unfolding newest_first
length-newest_first [] = refl
length-newest_first (a ∷ xs) =
    length-insert_newest a (newest_first xs) ∙ ap suc (length-newest_first xs)

count-insert_newest :
    (p : SecurityAlert → Bool) (a : SecurityAlert) (xs : List SecurityAlert)
    → count p (insert_newest a xs) ≡ count p (a ∷ xs)
unfolding insert_newest
count-insert_newest p a [] = refl
count-insert_newest p a (b ∷ xs) = ground (arith, count-insert_newest p a xs)

count-newest_first :
    (p : SecurityAlert → Bool) (xs : List SecurityAlert) → count p (newest_first xs) ≡ count p xs
unfolding newest_first
count-newest_first p [] = refl
count-newest_first p (a ∷ xs) =
    ground (arith, count-insert_newest p a (newest_first xs), count-newest_first p xs)

-- `get_alerts` returns alerts newest first, whatever the filters and the limit. It may reorder the
-- stored alerts, but the summary is the same before and after.
pub reading_keeps_summary :
    (severity : Option AlertSeverity) (flag : Option Bool) (limit now : ℕ) (s : SecurityMonitoring)
    → IsNewestFirst (get_alerts severity flag limit s).0
      × (get_monitoring_summary now (get_alerts severity flag limit s).1
          ≡ get_monitoring_summary now s)
unfolding get_alerts get_monitoring_summary
reading_keeps_summary none none limit now s = (
  take-IsNewestFirst limit (newest_first s.alerts) (newest_first-IsNewestFirst s.alerts),
  rw
      (
        length-newest_first s.alerts,
        count-newest_first (λ a. not a.acknowledged) s.alerts,
        count-newest_first (λ a. a.severity == critical) s.alerts,
        count-newest_first (λ a. a.severity == high) s.alerts,
        count-newest_first (is_recent now) s.alerts,
      )
      refl,
)
reading_keeps_summary none (some flag) limit now s = (
  take-IsNewestFirst limit (newest_first (with_flag (some flag) s.alerts))
      (newest_first-IsNewestFirst (with_flag (some flag) s.alerts)),
  refl,
)
reading_keeps_summary (some v) flag limit now s = (
  take-IsNewestFirst limit (newest_first (with_flag flag (with_severity (some v) s.alerts)))
      (newest_first-IsNewestFirst (with_flag flag (with_severity (some v) s.alerts))),
  refl,
)
