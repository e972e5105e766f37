-- ===== src/Framework.antt =====
-- src/bt_api_security/framework.py: access control and audit logging around a caller's functions.
pub mod Guards
pub mod Permitted
pub mod Audited
mod Tests
