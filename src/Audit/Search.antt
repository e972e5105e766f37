-- ===== src/Audit/Search.antt =====
-- `search_events` of core/audit_logger.py against filtering the events of the file.
use bt_api_security.Prelude.{
  append-[], append_assoc, ℕ, ◌+◌, ◌≤◌, ◌<◌, ◌≡◌, refl, sym, ◌∙◌, inl, inr, Bool, false, Option,
  none, some, List, [], ◌∷◌, ◌++◌, arith, leb, leb→le, Bool-cases, Option-cases, nat_Eq, string_Eq,
  length, select, length-append, All,
}
use bt_api_security.Audit.Types.{AuditEvent, Json}
use bt_api_security.Audit.Logger.{AuditLogger, lines_of}
use bt_api_security.Audit.Queries.{
  Filters, matches, insert_newest, newest_first, read_line, collect, search_lines, search_events,
}

abbrev pub cons_option : {A : Type 0} → Option A → List A → List A
cons_option none xs = xs
cons_option (some x) xs = x ∷ xs

-- The events that the lines give.
abbrev pub readable : {Line : Type 0} → Json Line → List Line → List AuditEvent
readable json [] = []
readable json (l ∷ ls) = cons_option (read_line json l) (readable json ls)

-- Newest first.
abbrev pub IsNewestFirst : List AuditEvent → Type 0
IsNewestFirst [] = Unit
IsNewestFirst (e ∷ es) = All (λ x. x.timestamp ≤ e.timestamp) es × IsNewestFirst es

All-weaken :
    (m n : ℕ) (es : List AuditEvent)
    → m ≤ n
    → All (λ x. x.timestamp ≤ m) es
    → All (λ x. x.timestamp ≤ n) es
All-weaken m n [] le h = tt
All-weaken m n (e ∷ es) le h = (omega (arith, h.0), All-weaken m n es le h.1)

All-insert :
    (n : ℕ) (e : AuditEvent) (es : List AuditEvent)
    → e.timestamp ≤ n
    → All (λ x. x.timestamp ≤ n) es
    → All (λ x. x.timestamp ≤ n) (insert_newest e es)
All-insert n e [] le h = (le, tt)
All-insert n e (x ∷ es) le h = elim (Bool-cases (leb x.timestamp e.timestamp)) [
  | inl older ↦ rw older (le, h)
  | inr newer ↦ rw newer (h.0, All-insert n e es le h.1)
]

insert_newest-IsNewestFirst :
    (e : AuditEvent) (es : List AuditEvent) → IsNewestFirst es → IsNewestFirst (insert_newest e es)
insert_newest-IsNewestFirst e [] h = (tt, tt)
insert_newest-IsNewestFirst e (x ∷ es) h = elim (Bool-cases (leb x.timestamp e.timestamp)) [
  | inl older ↦
      rw older ((leb→le _ _ older, All-weaken x.timestamp e.timestamp es (leb→le _ _ older) h.0), h)
  | inr newer ↦
      rw newer
        (All-insert x.timestamp e es (ground arith) h.0, insert_newest-IsNewestFirst e es h.1)
]

newest_first-IsNewestFirst : (es : List AuditEvent) → IsNewestFirst (newest_first es)
unfolding newest_first
newest_first-IsNewestFirst [] = tt
newest_first-IsNewestFirst (e ∷ es) =
    insert_newest-IsNewestFirst e (newest_first es) (newest_first-IsNewestFirst es)

insert_newest-count :
    (p : AuditEvent → Bool) (e : AuditEvent) (es : List AuditEvent)
    → length (select p (insert_newest e es)) ≡ length (select p (e ∷ es))
insert_newest-count p e [] = refl
insert_newest-count p e (x ∷ es) = elim (Bool-cases (leb x.timestamp e.timestamp)) [
  | inl older ↦ rw older refl
  | inr newer ↦ rw newer (ground (arith, insert_newest-count p e es))
]

-- Sorting drops and adds nothing: it keeps the number of events with any property.
newest_first-count :
    (p : AuditEvent → Bool) (es : List AuditEvent)
    → length (select p (newest_first es)) ≡ length (select p es)
unfolding newest_first
newest_first-count p [] = refl
newest_first-count p (e ∷ es) =
    insert_newest-count p e (newest_first es) ∙ ground (arith, newest_first-count p es)

module _ {Line : Type 0} (json : Json Line) (f : Filters) (limit : ℕ) where
  -- One line, where the matches of the lines after it are known to be found.
  collect-few :
      (o : Option AuditEvent) (continue : List AuditEvent → List AuditEvent)
      (later results : List AuditEvent)
      → ((r : List AuditEvent)
          → length r + length (select (matches f) later) < limit
          → continue r ≡ r ++ select (matches f) later)
      → length results + length (select (matches f) (cons_option o later)) < limit
      → collect json f limit o results continue
        ≡ results ++ select (matches f) (cons_option o later)
  collect-few none continue later results found few = found results few
  collect-few (some e) continue later results found few = elim (Bool-cases (matches f e)) [
    | inr other ↦ rw other (found results (rw other at few))
    | inl match ↦
        let few' = rw match at few in
        let below : leb limit (length (results ++ e ∷ [])) ≡ false =
          ground (arith, length-append results (e ∷ [])) in
        rw (match, below)
          (found (results ++ e ∷ []) (omega (arith, few', length-append results (e ∷ [])))
            ∙ append_assoc results (e ∷ []) (select (matches f) later))
  ]

  search_lines-few :
      (ls : List Line) (results : List AuditEvent)
      → length results + length (select (matches f) (readable json ls)) < limit
      → search_lines json f limit ls results ≡ results ++ select (matches f) (readable json ls)
  unfolding search_lines
  search_lines-few [] results few = sym (append-[] results)
  search_lines-few (l ∷ ls) results few =
      collect-few (read_line json l) (search_lines json f limit ls) (readable json ls) results
        (search_lines-few ls) few

  -- Where fewer events match than the limit allows: the answer is newest first, and for any test
  -- has as many events that pass it as there are matching events of the file that pass it.
  pub search_events_complete :
      (s : AuditLogger Line) (p : AuditEvent → Bool)
      → length (select (matches f) (readable json (lines_of s.file))) < limit
      → IsNewestFirst (search_events json f limit s)
        × (length (select p (search_events json f limit s))
            ≡ length (select p (select (matches f) (readable json (lines_of s.file)))))
  unfolding search_events
  search_events_complete s p few = elim (Option-cases s.file) [
    | inl missing ↦ rw missing (tt, refl)
    | inr (lines, stored) ↦
        let few' = rw stored at few in
        let found = search_lines-few lines [] (omega (arith, few')) in
        rw (stored, found)
          (
            newest_first-IsNewestFirst (select (matches f) (readable json lines)),
            newest_first-count p (select (matches f) (readable json lines)),
          )
  ]
