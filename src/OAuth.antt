-- ===== src/OAuth.antt =====
-- src/bt_api_security/auth/oauth2_provider.py: clients, codes, tokens and their life.
pub mod Types
pub mod Inputs
pub mod Provider
pub mod Tokens
pub mod Frames
pub mod Codes
pub mod Atomicity
pub mod Calls
pub mod Traces
pub mod Rotation
pub mod SingleUse
pub mod Cleanup
mod Tests
