-- ===== src/Deployer.antt =====
-- Deployments in flight, and the wait for containers to settle: internal/deployer.
pub mod Stabilize
pub mod Tracker
mod Tests
mod TrackerTests
