-- ===== src/Recovery.antt =====
-- src/bt_api_security/recovery/disaster_recovery.py: backup configurations and recovery plans.
pub mod Manager
pub mod Identifiers
mod Tests
