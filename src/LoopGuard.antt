-- ===== src/LoopGuard.antt =====
-- The guard against repeated tool calls: zhongshu-core/src/harness/tool/loop_guard.rs.
pub mod Guard
pub mod History
mod Examples
