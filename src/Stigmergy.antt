-- ===== src/Stigmergy.antt =====
-- The coordination objects at the end of packages/cfour/src/index.ts.
pub mod Lease
pub mod Branch
pub mod Registry
