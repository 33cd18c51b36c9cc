-- ===== src/Recovery.antt =====
-- The recovery of the harness, zhongshu-core/src/harness/recovery/, and its state in
-- harness/state.rs.
pub mod Types
pub mod Policy
pub mod Check
pub mod Actions
pub mod Triggers
pub mod Pending
mod Examples
