-- ===== src/Transport.antt =====
-- crates/transport/src/message.rs: the handshake at the start of a connection, and the index of a
-- destination.
pub mod Framing
pub mod Handshake
pub mod DestIndex
