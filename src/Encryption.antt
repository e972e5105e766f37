-- ===== src/Encryption.antt =====
-- src/bt_api_security/core/encryption_manager.py: key managers, and the encryption manager on them.
pub mod Types
pub mod Local
pub mod Remote
pub mod Manager
pub mod Interface
pub mod Stored
pub mod LocalLaws
pub mod Ciphers
pub mod Active
pub mod RoundTrip
pub mod Errors
pub mod Fresh
mod Tests
