-- ===== src/Workflow.antt =====
-- The Regulation E workflow (tandem/workflow).
pub mod StateMachine
pub mod Calendar
pub mod Deadlines
pub mod Progress
pub mod Tests
