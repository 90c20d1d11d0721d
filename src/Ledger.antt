-- ===== src/Ledger.antt =====
-- The durable procedure ledger (tandem/ledger): its tables, the session through which the program
-- reads and writes them, and the operations of `LedgerRepository`.
pub mod Models
pub mod Session
pub mod Events
pub mod Cases
pub mod Executions
pub mod Intents
pub mod Claims
pub mod Deadlines
pub mod Obligations
pub mod Leases
pub mod Sessions
pub mod Service
pub mod Tests
