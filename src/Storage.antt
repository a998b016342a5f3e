-- ===== src/Storage.antt =====
-- The persistence of crates/storage/src/repositories.
pub mod Rows
pub mod Diagnostics
pub mod Alerts
pub mod Quotas
pub mod Usage
pub mod Budgets
pub mod Examples
