-- ===== src/Patch.antt =====
-- The patch engine, zhongshu-core/src/patch/mod.rs.
pub mod Types
pub mod Replace
pub mod Pieces
pub mod Cuts
pub mod Edits
pub mod Encoding
pub mod Endings
pub mod Engine
pub mod Fresh
pub mod Applies
pub mod Written
pub mod Plan
pub mod Opened
pub mod Planned
mod SampleCodec
mod Examples
