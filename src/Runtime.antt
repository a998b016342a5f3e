-- ===== src/Runtime.antt =====
-- The collection runtime, crates/provider-runtime/src.
pub mod Descriptor
pub mod Permissions
pub mod Registry
pub mod Scheduler
pub mod Collection
pub mod Adapter
pub mod Examples
