-- ===== src/Replay.antt =====
-- The replay engine (tandem/replay/): the checks of an external effect before and after a COMMIT,
-- and how the outcome of a COMMIT settles its claim.
pub mod Inquiry
pub mod Checks
pub mod Settlement
pub mod Http
pub mod Engine
pub mod CrashRecovery
pub mod Tests
