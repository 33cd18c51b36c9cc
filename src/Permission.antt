-- ===== src/Permission.antt =====
-- The permissions of equipment, zhongshu-core/src/equipment/permission.rs.
pub mod Types
pub mod Hosts
pub mod Paths
pub mod Guard
pub mod Choices
pub mod Entries
pub mod Grants
pub mod ShellCommands
pub mod Normal
mod Examples
