-- ===== src/Rpc.antt =====
-- pkg/rpc: the client and the server of a scan, and the messages between them.
pub mod Messages
pub mod Convert
pub mod Server
pub mod Client
pub mod Remote
pub mod Retry
pub mod Listen
mod Tests
