-- ===== src/Bdk.antt =====
-- The on-chain wallet's database over the browser's storage: node-manager/src/bdkstorage.rs.
pub mod Key
pub mod Database
pub mod Tests
