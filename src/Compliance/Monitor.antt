-- ===== src/Compliance/Monitor.antt =====
-- `ComplianceMonitor` of core/compliance_monitor.py. A rule's check function is what it returns, or
-- the text of what it raises.
use bt_api_security.Prelude.{
  String, ℕ, ◌+◌, ◌-◌, ◌*◌, Bool, true, false, not, Option, none, some, List, [], ◌∷◌, ◌++◌, ltb,
  if◌then◌else◌, Eq, ◌==◌, nat_Eq, string_Eq, holds, holds_iff, length, Result, ok, err,
}
use bt_api_security.Dict.{Dict, lookup, insert}

pub data ComplianceStandard : Type 0 where
  sox mifid_ii pci_dss gdpr iso_27001 nist_csf : ComplianceStandard

unfoldable pub ComplianceStandard-discrete : Discrete ComplianceStandard
ComplianceStandard-discrete = hlevel

instance abbrev pub compliance_standard_Eq : Eq ComplianceStandard
compliance_standard_Eq = record {
  test = λ a b. holds (ComplianceStandard-discrete a b);
  test_iff = λ a b. holds_iff (ComplianceStandard-discrete a b);
}

unfoldable pub standard_value : ComplianceStandard → String
standard_value sox = "sox"
standard_value mifid_ii = "mifid_ii"
standard_value pci_dss = "pci_dss"
standard_value gdpr = "gdpr"
standard_value iso_27001 = "iso_27001"
standard_value nist_csf = "nist_csf"

pub record ComplianceRule : Type 0 where
  pub rule_id : String
  pub standard : ComplianceStandard
  pub description : String
  pub check_function : Result String Bool
  pub severity : String

abbrev pub high_rule : String → ComplianceStandard → String → Result String Bool → ComplianceRule
high_rule id standard description check = record {
  rule_id = id;
  standard = standard;
  description = description;
  check_function = check;
  severity = "high";
}

-- The three checks are placeholders.
unfoldable pub check_transaction_auditability : Result String Bool
check_transaction_auditability = ok true

unfoldable pub check_timestamp_accuracy : Result String Bool
check_timestamp_accuracy = ok true

unfoldable pub check_card_data_encryption : Result String Bool
check_card_data_encryption = ok true

-- The state is the list of rules, to which others may be appended.
unfoldable pub default_rules : List ComplianceRule
unfolding check_transaction_auditability check_timestamp_accuracy check_card_data_encryption
default_rules =
    high_rule "SOX_001" sox "All financial transactions must be auditable"
      check_transaction_auditability
    ∷ high_rule "MIFID_001" mifid_ii "Trade timestamps must be accurate to millisecond"
        check_timestamp_accuracy
    ∷ high_rule "PCI_001" pci_dss "Cardholder data must be encrypted" check_card_data_encryption
    ∷ []

-- An entry of the results; `error` is missing where the check did not raise.
pub record CheckResult : Type 0 where
  pub standard : String
  pub description : String
  pub passed : Bool
  pub error : Option String
  pub severity : String

unfoldable pub result_of : ComplianceRule → CheckResult
unfolding standard_value
result_of r = elim r.check_function [
  | ok passed ↦ record {
    standard = standard_value r.standard;
    description = r.description;
    passed = passed;
    error = none;
    severity = r.severity;
  }
  | err e ↦ record {
    standard = standard_value r.standard;
    description = r.description;
    passed = false;
    error = some e;
    severity = r.severity;
  }
]

-- `standard is None or rule.standard == standard`
abbrev pub is_asked : Option ComplianceStandard → ComplianceRule → Bool
is_asked none r = true
is_asked (some st) r = r.standard == st

unfoldable pub check_loop :
    Option ComplianceStandard → List ComplianceRule → Dict CheckResult → Dict CheckResult
unfolding result_of
check_loop standard [] results = results
check_loop standard (r ∷ rs) results =
    check_loop standard rs
      (if is_asked standard r then insert r.rule_id (result_of r) results else results)

unfoldable pub run_compliance_check :
    Option ComplianceStandard → List ComplianceRule → Dict CheckResult
unfolding check_loop
run_compliance_check standard rules = check_loop standard rules []

pub record Group : Type 0 where
  pub total : ℕ
  pub passed : ℕ
  pub failed : ℕ
  pub rules : List (String × String × Bool)

abbrev pub empty_group : Group
empty_group = record { total = 0; passed = 0; failed = 0; rules = [] }

abbrev pub group_or_empty : Option Group → Group
group_or_empty none = empty_group
group_or_empty (some g) = g

abbrev pub one_if : Bool → ℕ
one_if true = 1
one_if false = 0

abbrev pub count_in : String → CheckResult → Group → Group
count_in id r g = record {
  total = g.total + 1;
  passed = g.passed + one_if r.passed;
  failed = g.failed + one_if (not r.passed);
  rules = g.rules ++ (id, r.description, r.passed) ∷ [];
}

-- The group of a standard is made when it is first met.
unfoldable pub group_by_standard : Dict CheckResult → Dict Group → Dict Group
group_by_standard [] grouped = grouped
group_by_standard ((id, r) ∷ results) grouped =
    group_by_standard results
      (insert r.standard (count_in id r (group_or_empty (lookup r.standard grouped))) grouped)

-- The percentage is the numerator and denominator that are divided, `none` for the 0 of no rules.
pub record Report : Type 0 where
  pub total_rules : ℕ
  pub passed : ℕ
  pub failed : ℕ
  pub compliance_percentage : Option (ℕ × ℕ)
  pub results : Dict CheckResult
  pub by_standard : Dict Group

unfoldable pub passed_count : Dict CheckResult → ℕ
passed_count [] = 0
passed_count ((id, r) ∷ results) = one_if r.passed + passed_count results

abbrev pub percentage : ℕ → ℕ → Option (ℕ × ℕ)
percentage passed total = if ltb 0 total then some (passed * 100, total) else none

unfoldable pub generate_compliance_report : List ComplianceRule → Report
unfolding run_compliance_check group_by_standard passed_count
generate_compliance_report rules =
    let results : Dict CheckResult = run_compliance_check none rules in
    record {
      total_rules = length results;
      passed = passed_count results;
      failed = length results - passed_count results;
      compliance_percentage = percentage (passed_count results) (length results);
      results = results;
      by_standard = group_by_standard results [];
    }
