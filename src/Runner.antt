-- ===== src/Runner.antt =====
-- Execution on disk: zhongshu-core/src/core/execution_runner.rs, and the store of
-- core/checkpoint.rs.
pub mod Store
pub mod Durable
pub mod Calls
pub mod Admission
pub mod Table
pub mod Versions
mod Examples
