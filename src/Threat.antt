-- ===== src/Threat.antt =====
-- src/bt_api_security/core/threat_detection.py: threat events from logins, accesses and transfers.
pub mod Types
pub mod Detector
pub mod Responses
pub mod FailedLogins
pub mod Detection
pub mod Resolution
mod Tests
