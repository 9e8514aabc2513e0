-- ===== src/Store.antt =====
-- The transitions of the Bridge's persisted state: apps/bridge/src/state-store.
pub mod State
pub mod Sessions
pub mod Comparison
pub mod Execution
pub mod Commands
pub mod Publication
pub mod Health
pub mod Handles
pub mod Commit
pub mod Events
pub mod Retention
pub mod Empty
mod Tests
mod StateTests
mod SessionTests
