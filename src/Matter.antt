-- ===== src/Matter.antt =====
-- plugins/matter: the Matter protocols of the Matter app.
pub mod Buffer
pub mod Message
pub mod Tlv
pub mod Mrp
pub mod Ccm
pub mod Onboarding
pub mod Tests
