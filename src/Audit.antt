-- ===== src/Audit.antt =====
-- src/bt_api_security/core/audit_logger.py: the log of hashed, chained audit events.
pub mod Enums
pub mod Types
pub mod Logger
pub mod Queries
pub mod Chain
pub mod Search
pub mod Integrity
pub mod Tampering
mod Tests
