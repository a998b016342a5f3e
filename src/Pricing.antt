-- ===== src/Pricing.antt =====
-- The pricing of usage, crates/pricing: `Models` has the names of models, `Catalog` the resolver and
-- `Calculator` the cost of an event.
pub mod Models
pub mod Catalog
pub mod Calculator
pub mod Examples
