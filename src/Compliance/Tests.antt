-- ===== src/Compliance/Tests.antt =====
-- Concrete runs of core/compliance_monitor.py.
use bt_api_security.Prelude.{◌+◌, ◌≡◌, false, List, [], ◌∷◌, ◌++◌, nat_Eq, string_Eq, ok, err}
use bt_api_security.Compliance.Monitor.{
  gdpr, ComplianceRule, high_rule, default_rules, generate_compliance_report,
}
use bt_api_security.Compliance.Totals.{sum_of, report_adds_up}

-- The default rules, one that raises, and one more with its id.
abbrev five_rules : List ComplianceRule
five_rules =
    default_rules
    ++ high_rule "G" gdpr "raises" (err "unreachable") ∷ high_rule "G" gdpr "fails" (ok false) ∷ []

report_adds_up_example :
    let r = generate_compliance_report five_rules in
    (sum_of (λ g. g.total) r.by_standard ≡ r.total_rules)
    × (sum_of (λ g. g.passed) r.by_standard ≡ r.passed)
    × (sum_of (λ g. g.failed) r.by_standard ≡ r.failed)
    × (r.passed + r.failed ≡ r.total_rules)
report_adds_up_example = report_adds_up five_rules
