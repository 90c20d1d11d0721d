-- ===== src/Simulators.antt =====
-- The simulated external systems that the procedures act on (simulators/).
pub mod CoreBank
pub mod Tests
