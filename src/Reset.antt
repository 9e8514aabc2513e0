-- ===== src/Reset.antt =====
-- The Host-domain reset: the journal, the state machine that names the next action, the policy that
-- admits a transition, and the store and loop that drive them (apps/bridge/src/cli/operations).
pub mod Journal
pub mod Machine
pub mod Policy
pub mod Schema
pub mod Coordinator
mod Tests
