-- ===== src/Domain.antt =====
-- The domain vocabulary of Tandem (tandem/domain).
pub mod Outcomes
pub mod Effects
pub mod Values
pub mod Errors
pub mod Money
pub mod Fields
pub mod Capability
pub mod Identity
pub mod Tests
