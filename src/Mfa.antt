-- ===== src/Mfa.antt =====
-- src/bt_api_security/auth/mfa_provider.py: one-time passwords, backup codes and WebAuthn.
pub mod Types
pub mod Setup
pub mod Provider
pub mod Webauthn
pub mod Codes
pub mod Traces
pub mod Kept
pub mod BackupCodes
pub mod Counters
pub mod SignCounts
pub mod Replay
mod Tests
