-- ===== src/Compliance/Totals.antt =====
-- The counts of the reports of core/compliance_monitor.py.
use bt_api_security.Prelude.{
  String, ℕ, ◌+◌, ◌≡◌, refl, Bool, true, false, not, none, List, [], ◌∷◌, arith, nat_Eq, string_Eq,
  length,
}
use bt_api_security.Dict.{Dict, lookup, insert}
use bt_api_security.Compliance.Monitor.{
  ComplianceRule, CheckResult, run_compliance_check, Group, group_or_empty, one_if, count_in,
  group_by_standard, passed_count, generate_compliance_report,
}

-- A number of every group, added up.
abbrev pub sum_of : (Group → ℕ) → Dict Group → ℕ
sum_of f [] = 0
sum_of f ((k, g) ∷ d) = f g + sum_of f d

sum_of-insert :
    (f : Group → ℕ)
    → f (group_or_empty none) ≡ 0
    → (k : String) (g : Group) (d : Dict Group)
    → sum_of f (insert k g d) + f (group_or_empty (lookup k d)) ≡ sum_of f d + f g
unfolding lookup insert
sum_of-insert f zero_empty k g [] = omega (arith, zero_empty)
sum_of-insert f zero_empty k g ((j, h) ∷ d) = ground (arith, sum_of-insert f zero_empty k g d)

sum_of-total :
    (results : Dict CheckResult) (grouped : Dict Group)
    → sum_of (λ g. g.total) (group_by_standard results grouped)
      ≡ length results + sum_of (λ g. g.total) grouped
unfolding group_by_standard
sum_of-total [] grouped = omega arith
sum_of-total ((id, r) ∷ results) grouped =
    let g = group_or_empty (lookup r.standard grouped) in
    omega (
      arith,
      sum_of-insert (λ x. x.total) refl r.standard (count_in id r g) grouped,
      sum_of-total results (insert r.standard (count_in id r g) grouped),
    )

sum_of-passed :
    (results : Dict CheckResult) (grouped : Dict Group)
    → sum_of (λ g. g.passed) (group_by_standard results grouped)
      ≡ passed_count results + sum_of (λ g. g.passed) grouped
unfolding group_by_standard passed_count
sum_of-passed [] grouped = omega arith
sum_of-passed ((id, r) ∷ results) grouped =
    let g = group_or_empty (lookup r.standard grouped) in
    omega (
      arith,
      sum_of-insert (λ x. x.passed) refl r.standard (count_in id r g) grouped,
      sum_of-passed results (insert r.standard (count_in id r g) grouped),
    )

one_if-not : (b : Bool) → one_if b + one_if (not b) ≡ 1
one_if-not true = refl
one_if-not false = refl

sum_of-failed :
    (results : Dict CheckResult) (grouped : Dict Group)
    → sum_of (λ g. g.failed) (group_by_standard results grouped) + passed_count results
      ≡ length results + sum_of (λ g. g.failed) grouped
unfolding group_by_standard passed_count
sum_of-failed [] grouped = omega arith
sum_of-failed ((id, r) ∷ results) grouped =
    let g = group_or_empty (lookup r.standard grouped) in
    omega (
      arith,
      one_if-not r.passed,
      sum_of-insert (λ x. x.failed) refl r.standard (count_in id r g) grouped,
      sum_of-failed results (insert r.standard (count_in id r g) grouped),
    )

-- Whatever the rules, with ids that repeat and checks that raise among them: the groups by standard
-- of the report add up to its totals, of rules, of passed and of failed ones, and passed and failed
-- rules are all rules.
pub report_adds_up :
    (rules : List ComplianceRule)
    → let r = generate_compliance_report rules in
      (sum_of (λ g. g.total) r.by_standard ≡ r.total_rules)
      × (sum_of (λ g. g.passed) r.by_standard ≡ r.passed)
      × (sum_of (λ g. g.failed) r.by_standard ≡ r.failed)
      × (r.passed + r.failed ≡ r.total_rules)
unfolding generate_compliance_report
report_adds_up rules =
    let results = run_compliance_check none rules in
    let all_of = sum_of-total results [] in
    let good = sum_of-passed results [] in
    let bad = sum_of-failed results [] in
    (omega (arith, all_of), omega (arith, good), omega (arith, bad), omega (arith, bad))
