-- ===== src/AccessControl.antt =====
-- src/bt_api_security/core/access_control.py: roles with permissions, users, decisions, sessions.
pub mod Types
pub mod Roles
pub mod Manager
pub mod Sessions
pub mod Decisions
pub mod Lockout
pub mod Invariant
pub mod Permissions
pub mod Writes
pub mod Preserves
mod Tests
