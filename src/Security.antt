-- ===== src/Security.antt =====
-- The guard that stands before persistence, crates/security/src.
pub mod PrivacyGuard
pub mod Examples
