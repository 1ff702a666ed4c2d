-- ===== src/Extent.antt =====
-- The extent service: the client's cache and the server's disk.
pub mod Client
pub mod Block
pub mod Inode
pub mod Server
mod Tests
