-- ===== src/Fs.antt =====
-- The file system over extents and locks: yfs_client.h and yfs_client.cc.
pub mod Dir
pub mod Content
pub mod Below
pub mod Client
pub mod Names
pub mod Locks
pub mod Effects
pub mod Create
pub mod Cached
pub mod Found
pub mod Removal
pub mod Unlink
mod Tests
