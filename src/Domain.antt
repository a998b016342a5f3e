-- ===== src/Domain.antt =====
-- The types that all crates share, crates/domain/src.
pub mod Float
pub mod Usage
pub mod Quota
pub mod Serialized
pub mod Examples
