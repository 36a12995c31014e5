-- ===== src/Web.antt =====
-- Logging in to the web front end (src/web/auth.rs).
pub mod Auth
pub mod Lockout
pub mod Sessions
pub mod Tokens
pub mod SignedIn
mod Tests
