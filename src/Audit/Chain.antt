-- ===== src/Audit/Chain.antt =====
-- The chain that `log_event` of core/audit_logger.py builds, and `verify_log_integrity` follows.
use bt_api_security.Prelude.{
  append-[], String, ℕ, ◌+◌, ◌≡◌, refl, sym, ap, ◌∙◌, ◌⊎◌, inl, inr, Bool, false, Option, none,
  some, List, [], ◌∷◌, ◌++◌, map, arith, if◌then◌else◌, Bool-cases, nat_Eq, string_Eq, length,
}
use bt_api_security.Audit.Types.{
  AuditEvent, Json, IsFaithful, truthy, same_text_iff, calculate_hash, post_init, verify_integrity,
  load, to_dict, line_of, load-line_of,
}
use bt_api_security.Audit.Logger.{
  AuditLogger, Progress, checked, start, lines_of, open_logger, log_event, sealed, verify_lines,
  verify_event, verify_file, check_chain, check_event, verify_log_integrity, subscribe, unsubscribe,
}

abbrev pub chain_end : Option String → List AuditEvent → Option String
chain_end previous [] = previous
chain_end previous (e ∷ es) = chain_end e.event_hash es

-- Every event carries its own hash, and from the second on the hash of the one before.
abbrev pub IsChain : {Line : Type 0} → Json Line → Option String → List AuditEvent → Type 0
IsChain json previous [] = Unit
IsChain json previous (e ∷ es) =
    ((truthy previous ≡ false) ⊎ (e.previous_hash ≡ previous))
    × (e.event_hash ≡ some (calculate_hash json e))
    × IsChain json e.event_hash es

module _ {Line : Type 0} (json : Json Line) (faithful : IsFaithful json) where
  pub IsChain-append :
      (previous : Option String) (es : List AuditEvent) (e : AuditEvent)
      → IsChain json previous es
      → IsChain json (chain_end previous es) (e ∷ [])
      → IsChain json previous (es ++ e ∷ [])
  IsChain-append previous [] e c last = last
  IsChain-append previous (x ∷ es) e c last = (c.0, c.1, IsChain-append x.event_hash es e c.2 last)

  pub chain_end-append :
      (previous : Option String) (es : List AuditEvent) (e : AuditEvent)
      → chain_end previous (es ++ e ∷ []) ≡ e.event_hash
  chain_end-append previous [] e = refl
  chain_end-append previous (x ∷ es) e = chain_end-append x.event_hash es e

  post_init-hashed :
      (e : AuditEvent) → e.event_hash ≡ some (calculate_hash json e) → post_init json e ≡ e
  unfolding post_init
  post_init-hashed e hashed = elim (Bool-cases (truthy e.event_hash)) [
    | inl given ↦ rw given refl
    | inr missing ↦ rw missing (ap (λ h. record e { event_hash = h }) (sym hashed))
  ]

  -- A hashed event is read back as it was.
  load-encode :
      (e : AuditEvent)
      → e.event_hash ≡ some (calculate_hash json e)
      → load json ((line_of json) e) ≡ some e
  load-encode e hashed = load-line_of json faithful e ∙ ap some (post_init-hashed e hashed)

  check_chain-passes :
      (n : ℕ) (previous : Option String) (e : AuditEvent)
      → (truthy previous ≡ false) ⊎ (e.previous_hash ≡ previous)
      → check_chain json n previous e ≡ []
  unfolding check_chain
  check_chain-passes n previous e (inl none_before) = rw none_before refl
  check_chain-passes n previous e (inr linked) =
      ground (arith, same_text_iff e.previous_hash previous)

  check_event-passes :
      (n : ℕ) (e : AuditEvent)
      → e.event_hash ≡ some (calculate_hash json e)
      → check_event json n e ≡ []
  unfolding check_event verify_integrity
  check_event-passes n e hashed =
      rw ((same_text_iff (some (calculate_hash json e)) e.event_hash).1 (sym hashed)) refl

  verify_event-chain :
      (n : ℕ) (e : AuditEvent) (v : Progress)
      → (truthy v.previous_hash ≡ false) ⊎ (e.previous_hash ≡ v.previous_hash)
      → e.event_hash ≡ some (calculate_hash json e)
      → verify_event json n (some e) v ≡ record {
        verified_count = v.verified_count + 1;
        violations = v.violations;
        previous_hash = e.event_hash;
      }
  unfolding verify_event
  verify_event-chain n e v linked hashed =
      rw (check_chain-passes n v.previous_hash e linked, check_event-passes n e hashed)
        (ap
          (λ x. record {
            verified_count = v.verified_count + 1;
            violations = x;
            previous_hash = e.event_hash;
          })
          (append-[] (v.violations ++ []) ∙ append-[] v.violations))

  verify_line-chain :
      (n : ℕ) (e : AuditEvent) (v : Progress)
      → (truthy v.previous_hash ≡ false) ⊎ (e.previous_hash ≡ v.previous_hash)
      → e.event_hash ≡ some (calculate_hash json e)
      → (if json.is_blank ((line_of json) e)
          then v
          else verify_event json n (load json ((line_of json) e)) v)
        ≡ record {
          verified_count = v.verified_count + 1;
          violations = v.violations;
          previous_hash = e.event_hash;
        }
  verify_line-chain n e v linked hashed =
      rw (faithful.not_blank (to_dict e), load-encode e hashed)
        (verify_event-chain n e v linked hashed)

  -- The lines of a chain add no violation.
  pub verify_lines-chain :
      (n : ℕ) (es : List AuditEvent) (v : Progress)
      → IsChain json v.previous_hash es
      → verify_lines json n (map (line_of json) es) v ≡ record {
        verified_count = v.verified_count + length es;
        violations = v.violations;
        previous_hash = chain_end v.previous_hash es;
      }
  unfolding verify_lines
  verify_lines-chain n [] v c = ground arith
  verify_lines-chain n (e ∷ es) v c =
      ap (verify_lines json (n + 1) (map (line_of json) es)) (verify_line-chain n e v c.0 c.1)
      ∙ verify_lines-chain (n + 1) es
          (record {
            verified_count = v.verified_count + 1;
            violations = v.violations;
            previous_hash = e.event_hash;
          })
          c.2
      ∙ ap
          (λ k. record {
            verified_count = k;
            violations = v.violations;
            previous_hash = chain_end e.event_hash es;
          })
          (omega arith)

  pub verify_log_integrity-chain :
      (es : List AuditEvent) (s : AuditLogger Line)
      → s.file ≡ some (map (line_of json) es)
      → IsChain json none es
      → verify_log_integrity json none s ≡ checked "verified" (length es) [] (chain_end none es)
  unfolding verify_log_integrity verify_file
  verify_log_integrity-chain es s stored c =
      rw (stored, verify_lines-chain 1 es (start json) c)
        (ap (λ k. checked "verified" k [] (chain_end none es)) (omega arith))

  pub sealed-hashed :
      (previous : Option String) (e : AuditEvent)
      → (sealed json previous e).event_hash ≡ some (calculate_hash json (sealed json previous e))
  unfolding sealed calculate_hash
  sealed-hashed previous e = refl

  pub sealed-linked :
      (previous : Option String) (e : AuditEvent)
      → (sealed json previous e).previous_hash ≡ previous
  unfolding sealed
  sealed-linked previous e = refl

-- The file is a chain of events, and the logger remembers the hash of its last line.
pub record IsLog {Line : Type 0} (json : Json Line) (s : AuditLogger Line) : Type 0 where
  pub logged : List AuditEvent
  pub written : lines_of s.file ≡ map (line_of json) logged
  pub chained : IsChain json none logged
  pub remembered : s.last_hash ≡ chain_end none logged

-- What happens to a logger and its file: an event is logged or fails to be, a subscriber comes or
-- goes, the program starts again on the same file.
pub data Step {Line : Type 0} (json : Json Line) (s : AuditLogger Line)
    : AuditLogger Line → Type 0 where
  log_step : (writes : Bool) (e : AuditEvent) → Step json s (log_event json writes e s).1
  subscribe_step : (callback : String) → Step json s (subscribe json callback s)
  unsubscribe_step : (callback : String) → Step json s (unsubscribe json callback s)
  restart_step :
      (retention_days : ℕ) (real_time : Bool)
      → Step json s (open_logger json s.file retention_days real_time)

pub data Reach {Line : Type 0} (json : Json Line) (s : AuditLogger Line)
    : AuditLogger Line → Type 0 where
  here : Reach json s s
  next : {t u : AuditLogger Line} → Reach json s t → Step json t u → Reach json s u
