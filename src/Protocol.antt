-- ===== src/Protocol.antt =====
-- crates/protocol: the framing of the channel between controller and app, and its RPC sessions.
pub mod Decoder
pub mod Session
pub mod Tests
