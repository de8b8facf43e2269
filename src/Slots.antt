-- ===== src/Slots.antt =====
-- crates/core/src/slots.rs: documents in two alternating slots.
pub mod Codec
pub mod RoundTrip
pub mod Torn
pub mod Files
pub mod Selection
pub mod Tests
