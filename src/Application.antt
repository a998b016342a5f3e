-- ===== src/Application.antt =====
-- The use cases of crates/application/src.
pub mod Quota
pub mod Alerts
pub mod Refresh
pub mod Settings
pub mod Examples
