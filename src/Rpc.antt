-- ===== src/Rpc.antt =====
-- The RPC library: rpc/.
pub mod Window
pub mod Xid
pub mod Marshall
pub mod Dispatch
pub mod Fifo
pub mod Time
pub mod Pool
pub mod Connection
pub mod Client
