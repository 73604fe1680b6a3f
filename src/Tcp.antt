-- ===== src/Tcp.antt =====
-- src/tcp: the wire protocol and the connections.
pub mod Uuid
pub mod Stream
pub mod Protocol
pub mod Store
pub mod Connection
pub mod Manager
pub mod Server
pub mod Examples
