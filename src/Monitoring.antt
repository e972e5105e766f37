-- ===== src/Monitoring.antt =====
-- src/bt_api_security/monitoring/security_monitoring.py: security alerts.
pub mod Alerts
pub mod Reading
mod Tests
