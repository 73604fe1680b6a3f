-- ===== src/Tcp/Protocol.antt =====
-- src/tcp/protocol.rs
pub mod Types
pub mod Headers
pub mod Payload
pub mod Layout
pub mod Request
pub mod Encode
pub mod Parse
pub mod RoundTrip
pub mod Malformed
pub mod Response
pub mod ResponseLaws
