-- ===== src/Daemon.antt =====
-- Decisions of the daemon and of the encrypted uploads: apps/bridge/src/daemon and
-- apps/bridge/src/e2e.
pub mod Snapshots
pub mod Uploads
mod Tests
