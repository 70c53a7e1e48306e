-- ===== src/Verify.antt =====
-- The package verify/deployguard_verify: evidence receipts for a change.
pub mod Models
pub mod Glob
pub mod Policy
pub mod Findings
pub mod Engine
pub mod Evidence
pub mod Cli
pub mod Samples
mod Tests
