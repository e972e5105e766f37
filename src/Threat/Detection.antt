-- ===== src/Threat/Detection.antt =====
-- Failed logins of one key in core/threat_detection.py: the report comes with the threshold.
use bt_api_security.Prelude.{
  String, ℕ, zero, suc, ◌+◌, ◌-◌, ◌*◌, ◌≤◌, ◌<◌, ◌≡◌, refl, sym, ap, ◌∙◌, ◌≢◌, ◌↔◌, none, List, [],
  ◌∷◌, ◌++◌, arith, lt→ltb, nat_Eq, string_Eq, length, drop, length-append, append-[], append_assoc,
  All, second,
}
use bt_api_security.Dict.{Dict, insert}
use bt_api_security.Dict.Laws.{lookup-insert_self}
use bt_api_security.Threat.Types.{ThreatDetector}
use bt_api_security.Threat.Detector.{
  times_at, push_recent, recent_count, note_failure, judge_failures, detect_failed_login,
}
use bt_api_security.Prelude.Text.{◌^◌}

-- Failed logins at the given times.
unfoldable pub fail_each : String → String → List ℕ → ThreatDetector → ThreatDetector
fail_each user_id ip [] s = s
fail_each user_id ip (t ∷ ts) s = fail_each user_id ip ts (detect_failed_login t t user_id ip s).1

times_at-insert : (k : String) (ts : List ℕ) (d : Dict (List ℕ)) → times_at k (insert k ts d) ≡ ts
times_at-insert k ts d = rw (lookup-insert_self k ts d, times_at) refl

drop-append :
    {A : Type 0} (n : ℕ) (xs ys : List A) → n ≤ length xs → drop n (xs ++ ys) ≡ drop n xs ++ ys
drop-append zero xs ys h = refl
drop-append (suc n) [] ys h = absurd (omega (arith, h))
drop-append (suc n) (x ∷ xs) ys h = drop-append n xs ys (omega (arith, h))

drop-All : {A : Type 0} (P : A → Type 0) (n : ℕ) (xs : List A) → All P xs → All P (drop n xs)
drop-All P zero xs h = h
drop-All P (suc n) [] h = tt
drop-All P (suc n) (x ∷ xs) h = drop-All P n xs h.1

-- Times of which `recent` are the last ones, and those before are at least five minutes older than
-- `last`.
record EndsWith (last : ℕ) (times recent : List ℕ) : Type 0 where
  older : List ℕ
  split : times ≡ older ++ recent
  old : All (λ t. t + 300 * second ≤ last) older

push-EndsWith :
    (last t : ℕ) (times recent : List ℕ)
    → length recent < 100
    → EndsWith last times recent
    → EndsWith last (push_recent t times) (recent ++ t ∷ [])
unfolding push_recent
push-EndsWith last t times recent few e =
    let whole : times ++ t ∷ [] ≡ e.older ++ (recent ++ t ∷ []) =
      ap (λ l. l ++ t ∷ []) e.split ∙ append_assoc e.older recent (t ∷ []) in
    let over = length (times ++ t ∷ []) - 100 in
    let fits : over ≤ length e.older = omega (
      arith,
      ap length whole,
      length-append e.older (recent ++ t ∷ []),
      length-append recent (t ∷ []),
      few,
    ) in
    record {
      older = drop over e.older;
      split = ap (drop over) whole ∙ drop-append over e.older (recent ++ t ∷ []) fits;
      old = drop-All (λ x. x + 300 * second ≤ last) over e.older e.old;
    }

module _ (user_id ip : String) where
  abbrev key : String
  key = user_id ^ ":" ^ ip

  times_after :
      (now : ℕ) (s : ThreatDetector)
      → times_at key (note_failure now user_id ip s).failed_logins
        ≡ push_recent now (times_at key s.failed_logins)
  unfolding note_failure
  times_after now s =
      times_at-insert key (push_recent now (times_at key s.failed_logins)) s.failed_logins

  judged_times :
      (now stamped : ℕ) (s : ThreatDetector)
      → (judge_failures now stamped user_id ip s).1.failed_logins ≡ s.failed_logins
  unfolding judge_failures
  judged_times now stamped s = ground arith

  judged_thresholds :
      (now stamped : ℕ) (s : ThreatDetector)
      → (judge_failures now stamped user_id ip s).1.thresholds ≡ s.thresholds
  unfolding judge_failures
  judged_thresholds now stamped s = ground arith

  detect_times :
      (now stamped : ℕ) (s : ThreatDetector)
      → times_at key (detect_failed_login now stamped user_id ip s).1.failed_logins
        ≡ push_recent now (times_at key s.failed_logins)
  unfolding detect_failed_login
  detect_times now stamped s =
      ap (times_at key) (judged_times now stamped (note_failure now user_id ip s))
      ∙ times_after now s

  noted_thresholds :
      (now : ℕ) (s : ThreatDetector) → (note_failure now user_id ip s).thresholds ≡ s.thresholds
  unfolding note_failure
  noted_thresholds now s = refl

  detect_thresholds :
      (now stamped : ℕ) (s : ThreatDetector)
      → (detect_failed_login now stamped user_id ip s).1.thresholds ≡ s.thresholds
  unfolding detect_failed_login note_failure
  detect_thresholds now stamped s = judged_thresholds now stamped (note_failure now user_id ip s)

  fail_each-EndsWith :
      (last : ℕ) (ts recent : List ℕ) (s : ThreatDetector)
      → length recent + length ts ≤ 100
      → EndsWith last (times_at key s.failed_logins) recent
      → EndsWith last (times_at key (fail_each user_id ip ts s).failed_logins) (recent ++ ts)
        × ((fail_each user_id ip ts s).thresholds ≡ s.thresholds)
  unfolding fail_each
  fail_each-EndsWith last [] recent s few e = (rw (append-[] recent) e, refl)
  fail_each-EndsWith last (t ∷ ts) recent s few e =
      let after = (detect_failed_login t t user_id ip s).1 in
      let noted : EndsWith last (times_at key after.failed_logins) (recent ++ t ∷ []) =
        rw (detect_times t t s) (push-EndsWith last t _ recent (omega (arith, few)) e) in
      let (ends, thresholds) =
        fail_each-EndsWith last ts (recent ++ t ∷ []) after
          (omega (arith, few, length-append recent (t ∷ []))) noted in
      (rw (← append_assoc recent (t ∷ []) ts) ends, thresholds ∙ detect_thresholds t t s)

  recent_count-All :
      (now : ℕ) (ts : List ℕ)
      → All (λ t. now < t + 300 * second) ts
      → recent_count now ts ≡ length ts
  unfolding recent_count
  recent_count-All now [] h = refl
  recent_count-All now (t ∷ ts) h =
      ground (arith, h.0, lt→ltb now (t + 300 * second), recent_count-All now ts h.1)

  recent_count-old :
      (now : ℕ) (older ts : List ℕ)
      → All (λ t. t + 300 * second ≤ now) older
      → recent_count now (older ++ ts) ≡ recent_count now ts
  unfolding recent_count
  recent_count-old now [] ts h = refl
  recent_count-old now (t ∷ older) ts h = ground (arith, h.0, recent_count-old now older ts h.1)

  judged_iff :
      (now stamped : ℕ) (s : ThreatDetector)
      → (s.thresholds.failed_login_threshold ≤ recent_count now (times_at key s.failed_logins))
        ↔ ((judge_failures now stamped user_id ip s).0 ≢ none)
  unfolding judge_failures
  judged_iff now stamped s = (λ enough none_there. ground arith, λ some_there. ground arith)

  -- The failures of a user and an address that a detector remembers are all at least five minutes
  -- older than `last`; `ts` further failed logins and one at `last`, at most 100, are all within the
  -- five minutes. The one at `last` is reported exactly if these alone, without the earlier ones,
  -- are as many as the threshold.
  pub failures_reported_iff :
      (ts : List ℕ) (last stamped : ℕ) (s : ThreatDetector)
      → All (λ t. t + 300 * second ≤ last) (times_at key s.failed_logins)
      → All (λ t. last < t + 300 * second) (ts ++ last ∷ [])
      → length ts < 100
      → (s.thresholds.failed_login_threshold ≤ length ts + 1)
        ↔ ((detect_failed_login last stamped user_id ip (fail_each user_id ip ts s)).0 ≢ none)
  unfolding detect_failed_login
  failures_reported_iff ts last stamped s earlier recent few =
      let base = fail_each user_id ip ts s in
      let noted = note_failure last user_id ip base in
      let before : EndsWith last (times_at key s.failed_logins) [] = record {
        older = times_at key s.failed_logins;
        split = sym (append-[] (times_at key s.failed_logins));
        old = earlier;
      } in
      let (ends, thresholds) = fail_each-EndsWith last ts [] s (omega (arith, few)) before in
      let pushed = push-EndsWith last last _ ts few ends in
      let count : recent_count last (times_at key noted.failed_logins) ≡ length ts + 1 =
        ap (recent_count last) (times_after last base ∙ pushed.split)
        ∙ recent_count-old last pushed.older (ts ++ last ∷ []) pushed.old
        ∙ recent_count-All last (ts ++ last ∷ []) recent
        ∙ length-append ts (last ∷ []) in
      let threshold : noted.thresholds.failed_login_threshold
          ≡ s.thresholds.failed_login_threshold =
        ap (λ t. t.failed_login_threshold) (noted_thresholds last base ∙ thresholds) in
      let (reports, reported) = judged_iff last stamped noted in
      (
        λ enough. reports (omega (arith, enough, count, threshold)),
        λ some_there. omega (arith, reported some_there, count, threshold),
      )
