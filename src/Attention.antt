-- ===== src/Attention.antt =====
-- The attention manager, zhongshu-core/src/agent/attention_manager.rs.
pub mod Manager
pub mod Latest
pub mod Queue
mod Examples
