-- ===== src/Core.antt =====
-- rolen-core: the domain types, and the parts of the crate that compute.
pub mod Types
pub mod Text
pub mod Patch
pub mod Diff
pub mod Rules
pub mod Pricing
pub mod Ledger
pub mod Secrets
