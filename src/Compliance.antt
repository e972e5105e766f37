-- ===== src/Compliance.antt =====
-- src/bt_api_security/core/compliance_monitor.py: compliance rules and reports.
pub mod Monitor
pub mod Totals
mod Tests
