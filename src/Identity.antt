-- ===== src/Identity.antt =====
-- src/bt_api_security/core/identity_manager.py: identities, groups, passwords.
pub mod Types
pub mod Manager
pub mod Accounts
pub mod Queries
pub mod Membership
pub mod Traces
pub mod Reports
pub mod Shadowing
mod Tests
