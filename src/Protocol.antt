-- ===== src/Protocol.antt =====
-- Server/protocol.c: lines of the form `type|payload`.
pub mod Receive
pub mod Send
pub mod Dialog
pub mod Lines
pub mod Messages
pub mod Delivery
pub mod RoundTrip
pub mod Fields
pub mod Parts
pub mod Sharing
