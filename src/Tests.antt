-- ===== src/Tests.antt =====
-- Tests, and the theorems at concrete inputs.
pub mod Config
pub mod Server
pub mod Game
pub mod Serve
pub mod Sessions
pub mod Accounts
pub mod Store
pub mod Startup
