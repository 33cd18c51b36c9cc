-- ===== src/Execution.antt =====
-- The execution graph of zhongshu-core/src/agent/execution_graph.rs.
pub mod Types
pub mod Method
pub mod Graph
pub mod Lifecycle
pub mod Settle
pub mod Snapshot
pub mod Moves
pub mod Paths
pub mod History
mod Examples
mod ScheduleExamples
pub mod Settling
pub mod Schedule
pub mod Completed
pub mod Ends
pub mod Artifacts
pub mod Runs
pub mod Turns
pub mod Passes
pub mod Rounds
pub mod Answers
pub mod Traced
pub mod Acyclic
pub mod Steps
pub mod Safety
pub mod Building
pub mod Preserved
pub mod Completion
pub mod Kept
pub mod Batch
pub mod Readiness
pub mod Permitted
pub mod Doomed
pub mod Losses
pub mod Prerequisites
