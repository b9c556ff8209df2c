-- ===== src/Wire.antt =====
-- hex-net-core/src/wire.rs: packet kinds, connection ids, the payload header, handshake packets.
pub mod Bytes
pub mod Ids
pub mod Kinds
pub mod Header
pub mod HeaderLaws
pub mod Handshake
pub mod Route
