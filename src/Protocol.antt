-- ===== src/Protocol.antt =====
-- crates/mouser-protocol: the wire protocol.
pub mod Enums
pub mod Codec
pub mod Messages
pub mod Framing
pub mod Datagram
pub mod Tests
