-- ===== src/Shell.antt =====
-- The reading of a shell command, zhongshu-core/src/tool/shell_semantics.rs.
pub mod Types
pub mod Split
pub mod Tokens
pub mod Classify
pub mod Analyze
mod Verdict
pub mod Cut
mod Lossless
mod Examples
