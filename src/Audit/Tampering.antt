-- ===== src/Audit/Tampering.antt =====
-- Changed events in a log of core/audit_logger.py: what `verify_log_integrity` reports of them.
use bt_api_security.Prelude.{
  String, ℕ, ◌+◌, ◌≡◌, refl, sym, ap, ◌∙◌, ◌≢◌, inl, inr, Bool, true, false, Option, none, some,
  List, [], ◌∷◌, ◌++◌, arith, if◌then◌else◌, Bool-cases, nat_Eq, string_Eq, length, append_assoc,
}
use bt_api_security.Audit.Types.{
  AuditEvent, Json, IsFaithful, truthy, same_text, same_text_iff, calculate_hash, post_init,
  verify_integrity, load, to_dict, line_of, load-line_of,
}
use bt_api_security.Audit.Logger.{
  AuditLogger, Progress, checked, Violation, parse_error, event_hash_mismatch, status_of, start,
  verify_lines, verify_event, verify_file, check_chain, check_event, verify_log_integrity,
}

-- The violation stands somewhere in the list.
abbrev pub IsAmong : Violation → List Violation → Type 0
IsAmong v vs = (earlier : List Violation) × (later : List Violation) × (vs ≡ earlier ++ v ∷ later)

IsAmong-append : (v : Violation) (vs more : List Violation) → IsAmong v vs → IsAmong v (vs ++ more)
IsAmong-append v vs more (earlier, later, e) =
    (earlier, later ++ more, ap (λ x. x ++ more) e ∙ append_assoc earlier (v ∷ later) more)

status_of-IsAmong :
    (v : Violation) (vs : List Violation) → IsAmong v vs → status_of vs ≡ "violations_found"
status_of-IsAmong v vs ([], later, e) = rw e refl
status_of-IsAmong v vs (x ∷ earlier, later, e) = rw e refl

module _ {Line : Type 0} (json : Json Line) (x : Violation) where
  verify_event-keeps :
      (n : ℕ) (o : Option AuditEvent) (v : Progress)
      → IsAmong x v.violations
      → IsAmong x (verify_event json n o v).violations
  unfolding verify_event
  verify_event-keeps n none v h = IsAmong-append x v.violations (parse_error n ∷ []) h
  verify_event-keeps n (some e) v h =
      IsAmong-append x (v.violations ++ check_chain json n v.previous_hash e) (check_event json n e)
        (IsAmong-append x v.violations (check_chain json n v.previous_hash e) h)

  verify_line-keeps :
      (b : Bool) (n : ℕ) (o : Option AuditEvent) (v : Progress)
      → IsAmong x v.violations
      → IsAmong x (if b then v else verify_event json n o v).violations
  verify_line-keeps true n o v h = h
  verify_line-keeps false n o v h = verify_event-keeps n o v h

  verify_lines-keeps :
      (n : ℕ) (ls : List Line) (v : Progress)
      → IsAmong x v.violations
      → IsAmong x (verify_lines json n ls v).violations
  unfolding verify_lines
  verify_lines-keeps n [] v h = h
  verify_lines-keeps n (l ∷ ls) v h =
      verify_lines-keeps (n + 1) ls
        (if json.is_blank l then v else verify_event json n (load json l) v)
        (verify_line-keeps (json.is_blank l) n (load json l) v h)

at_line :
    (m n : ℕ) (event_id : String) (vs : List Violation)
    → m ≡ n
    → IsAmong (event_hash_mismatch m event_id) vs
    → IsAmong (event_hash_mismatch n event_id) vs
at_line m n event_id vs e h = rw (← e) h

module _ {Line : Type 0} (json : Json Line) where
  changed_event :
      (n : ℕ) (e : AuditEvent) (v : Progress)
      → e.event_hash ≢ some (calculate_hash json e)
      → IsAmong (event_hash_mismatch n e.event_id) (verify_event json n (some e) v).violations
  unfolding verify_event check_event verify_integrity
  changed_event n e v changed =
      elim (Bool-cases (same_text (some (calculate_hash json e)) e.event_hash)) [
        | inl same ↦
            absurd
              (changed (sym ((same_text_iff (some (calculate_hash json e)) e.event_hash).0 same)))
        | inr differs ↦ rw differs (v.violations ++ check_chain json n v.previous_hash e, [], refl)
      ]

  module _ (faithful : IsFaithful json) (e : AuditEvent) (hashed : truthy e.event_hash ≡ true)
      (changed : e.event_hash ≢ some (calculate_hash json e)) where
    load-changed : load json (line_of json e) ≡ some e
    unfolding post_init
    load-changed = load-line_of json faithful e ∙ rw hashed refl

    changed_line :
        (n : ℕ) (v : Progress)
        → IsAmong
            (event_hash_mismatch n e.event_id)
            (if json.is_blank (line_of json e)
              then v
              else verify_event json n (load json (line_of json e)) v).violations
    changed_line n v =
        rw (faithful.not_blank (to_dict e), load-changed) (changed_event n e v changed)

    changed_lines :
        (before after : List Line) (n : ℕ) (v : Progress)
        → IsAmong
            (event_hash_mismatch (n + length before) e.event_id)
            (verify_lines json n (before ++ line_of json e ∷ after) v).violations
    unfolding verify_lines
    changed_lines [] after n v = at_line n _ e.event_id _ (omega arith) (
        verify_lines-keeps json (event_hash_mismatch n e.event_id) (n + 1) after _
          (changed_line n v))
    changed_lines (x ∷ before) after n v =
        at_line (n + 1 + length before) _ e.event_id _ (omega arith)
          (changed_lines before after (n + 1) _)

    -- An event in the file that carries a hash, but not the one of its contents: if the file can be
    -- read and `json` loads what it dumped, the check finds violations, and among them the mismatch
    -- of this event, with its id and the number of its line, wherever it stands and whatever the
    -- other lines are.
    pub changed_reported :
        (before after : List Line) (s : AuditLogger Line)
        → s.file ≡ some (before ++ line_of json e ∷ after)
        → (n : ℕ) × (vs : List Violation) × (last : Option String) × (verify_log_integrity json none
              s
            ≡ checked "violations_found" n vs last)
          × IsAmong (event_hash_mismatch (length before + 1) e.event_id) vs
    unfolding verify_log_integrity verify_file
    changed_reported before after s stored =
        let done = verify_lines json 1 (before ++ line_of json e ∷ after) (start json) in
        let found =
          at_line (1 + length before) (length before + 1) e.event_id done.violations (omega arith)
            (changed_lines before after 1 (start json)) in
        (
          done.verified_count,
          done.violations,
          done.previous_hash,
          rw stored (
              ap (λ t. checked t done.verified_count done.violations done.previous_hash)
                (status_of-IsAmong _ done.violations found)),
          found,
        )
