-- ===== src/Audit/Integrity.antt =====
-- Logs that core/audit_logger.py writes verify, and so do logs with an event taken out.
use bt_api_security.Prelude.{
  String, ℕ, suc, ◌≡◌, refl, sym, ap, ◌∙◌, ◌⊎◌, inl, inr, Bool, true, false, Option, none, some,
  List, [], ◌∷◌, ◌++◌, map, Bool-cases, Option-cases, nat_Eq, string_Eq, length, contains,
}
use bt_api_security.Audit.Types.{AuditEvent, Json, IsFaithful, calculate_hash, to_dict, line_of}
use bt_api_security.Audit.Logger.{
  AuditLogger, no_log_file, checked, lines_of, last_line, last_hash_of, open_logger, log_event,
  sealed, verify_log_integrity, verify_file, subscribe, unsubscribe,
}
use bt_api_security.Audit.Chain.{
  chain_end, IsChain, IsChain-append, chain_end-append, sealed-hashed, sealed-linked,
  verify_log_integrity-chain, IsLog, Step, log_step, subscribe_step, unsubscribe_step, restart_step,
  Reach, here, next,
}

map-append :
    {A B : Type 0} (f : A → B) (xs : List A) (y : A) → map f (xs ++ y ∷ []) ≡ map f xs ++ f y ∷ []
map-append f [] y = refl
map-append f (x ∷ xs) y = ap (λ ys. f x ∷ ys) (map-append f xs y)

length-map : {A B : Type 0} (f : A → B) (xs : List A) → length (map f xs) ≡ length xs
length-map f [] = refl
length-map f (x ∷ xs) = ap suc (length-map f xs)

module _ {Line : Type 0} (json : Json Line) (faithful : IsFaithful json) where
  -- The hash that a new logger takes from the file is the one of the chain's last event.
  last_hash-chain :
      (previous : Option String) (e : AuditEvent) (es : List AuditEvent)
      → last_hash_of json (last_line (map (line_of json) (e ∷ es))) ≡ chain_end previous (e ∷ es)
  unfolding to_dict
  last_hash-chain previous e [] =
      rw (faithful.not_blank (to_dict e)) (faithful.hash_field_encode (to_dict e))
  last_hash-chain previous e (x ∷ es) = last_hash-chain e.event_hash x es

  last_hash-log :
      (es : List AuditEvent)
      → last_hash_of json (last_line (map (line_of json) es)) ≡ chain_end none es
  last_hash-log [] = refl
  last_hash-log (e ∷ es) = last_hash-chain none e es

  grow-IsLog :
      (s t : AuditLogger Line) (e : AuditEvent) (log : IsLog json s)
      → t.file ≡ some (lines_of s.file ++ (line_of json) (sealed json s.last_hash e) ∷ [])
      → t.last_hash ≡ (sealed json s.last_hash e).event_hash
      → IsLog json t
  grow-IsLog s t e log grown last =
      let event = sealed json s.last_hash e in
      record {
        logged = log.logged ++ event ∷ [];
        written =
            ap lines_of grown
            ∙ ap (λ ls. ls ++ (line_of json) event ∷ []) log.written
            ∙ sym (map-append (line_of json) log.logged event);
        chained = IsChain-append json faithful none log.logged event log.chained (
          inr (sealed-linked json faithful s.last_hash e ∙ log.remembered),
          sealed-hashed json faithful s.last_hash e,
          tt,
        );
        remembered = last ∙ sym (chain_end-append json faithful none log.logged event);
      }

  log_event-IsLog :
      (writes : Bool) (e : AuditEvent) (s : AuditLogger Line)
      → IsLog json s
      → IsLog json (log_event json writes e s).1
  unfolding log_event
  log_event-IsLog false e s log = log
  log_event-IsLog true e s log = elim (Bool-cases s.enable_real_time) [
    | inl live ↦ rw live (grow-IsLog s _ e log refl refl)
    | inr quiet ↦ rw quiet (grow-IsLog s _ e log refl refl)
  ]

  Step-IsLog : {s t : AuditLogger Line} → Step json s t → IsLog json s → IsLog json t
  unfolding subscribe unsubscribe open_logger
  Step-IsLog {s} (log_step writes e) log = log_event-IsLog writes e s log
  Step-IsLog {s} (subscribe_step callback) log = record {
    logged = log.logged;
    written = log.written;
    chained = log.chained;
    remembered = log.remembered;
  }
  Step-IsLog {s} (unsubscribe_step callback) log =
      elim (Bool-cases (contains callback s.subscribers)) [
        | inl there ↦ rw there (record {
          logged = log.logged;
          written = log.written;
          chained = log.chained;
          remembered = log.remembered;
        })
        | inr absent ↦ rw absent log
      ]
  Step-IsLog {s} (restart_step days live) log = record {
    logged = log.logged;
    written = log.written;
    chained = log.chained;
    remembered = ap (λ ls. last_hash_of json (last_line ls)) log.written ∙ last_hash-log log.logged;
  }

  Reach-IsLog : {s t : AuditLogger Line} → Reach json s t → IsLog json s → IsLog json t
  Reach-IsLog here log = log
  Reach-IsLog (next r step) log = Step-IsLog step (Reach-IsLog r log)

  IsLog-verifies :
      (s : AuditLogger Line)
      → IsLog json s
      → (verify_log_integrity json none s ≡ no_log_file)
        ⊎ ((n : ℕ) × (last : Option String) × (verify_log_integrity json none s
              ≡ checked "verified" n [] last)
            × (s.last_hash ≡ last)
            × (n ≡ length (lines_of s.file)))
  unfolding verify_log_integrity verify_file
  IsLog-verifies s log = elim (Option-cases s.file) [
    | inl missing ↦ inl (rw missing refl)
    | inr (lines, stored) ↦ inr (
      length log.logged,
      chain_end none log.logged,
      verify_log_integrity-chain json faithful log.logged s
          (stored ∙ ap some (ap lines_of (sym stored) ∙ log.written)) log.chained,
      log.remembered,
      sym (ap length log.written ∙ length-map (line_of json) log.logged),
    )
  ]

  -- A logger that starts without a file, after any events, failed writes and restarts: there is
  -- still no file, or the check of the log, if the file can be read and `json` loads what it dumped,
  -- reports no violation, counts every line, and ends with the hash that the logger will chain the
  -- next event to.
  pub log_verifies :
      (days : ℕ) (live : Bool) (s : AuditLogger Line)
      → Reach json (open_logger json none days live) s
      → (verify_log_integrity json none s ≡ no_log_file)
        ⊎ ((n : ℕ) × (last : Option String) × (verify_log_integrity json none s
              ≡ checked "verified" n [] last)
            × (s.last_hash ≡ last)
            × (n ≡ length (lines_of s.file)))
  unfolding open_logger
  log_verifies days live s r =
      IsLog-verifies s
        (Reach-IsLog r (record { logged = []; written = refl; chained = tt; remembered = refl }))

  IsChain-relinked :
      (previous : Option String) (es : List AuditEvent) (gone after : AuditEvent)
      (rest : List AuditEvent)
      → IsChain json previous (es ++ gone ∷ after ∷ rest)
      → IsChain json previous (es ++ record after { previous_hash = gone.previous_hash } ∷ rest)
  unfolding calculate_hash
  IsChain-relinked previous [] gone after rest c = (c.0, c.2.1, c.2.2)
  IsChain-relinked previous (e ∷ es) gone after rest c =
      (c.0, c.1, IsChain-relinked e.event_hash es gone after rest c.2)

  -- The chain does not show that an event was taken out: in a file whose events are a chain,
  -- delete one and give the event after it the deleted one's `previous_hash`, and the check, if the
  -- file can be read and `json` loads what it dumped, still reports no violation, since the hash of
  -- an event leaves `previous_hash` out.
  pub deletion_verifies :
      (es : List AuditEvent) (gone after : AuditEvent) (rest : List AuditEvent)
      (s : AuditLogger Line)
      → IsChain json none (es ++ gone ∷ after ∷ rest)
      → s.file
        ≡ some
            (map (line_of json) (es ++ record after { previous_hash = gone.previous_hash } ∷ rest))
      → (n : ℕ) × (last : Option String) × (verify_log_integrity json none s
          ≡ checked "verified" n [] last)
  deletion_verifies es gone after rest s c stored =
      let kept = es ++ record after { previous_hash = gone.previous_hash } ∷ rest in
      (
        length kept,
        chain_end none kept,
        verify_log_integrity-chain json faithful kept s stored
            (IsChain-relinked none es gone after rest c),
      )
