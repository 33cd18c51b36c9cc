-- ===== src/Message.antt =====
-- The crate zhongshu-message-core: blocks, the stream of a message, and the reading of Markdown events.
pub mod Block
pub mod Filter
pub mod Follows
pub mod Clean
pub mod Stream
pub mod Divergence
pub mod Parser
pub mod Items
pub mod Print
mod Examples
