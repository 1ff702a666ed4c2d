-- ===== src/Lock.antt =====
-- The lock service
pub mod Server
pub mod Client
pub mod Protocol
pub mod Plain
