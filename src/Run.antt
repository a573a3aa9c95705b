-- ===== src/Run.antt =====
-- Runs: packages/control-plane/src/run/.
pub mod Status
pub mod Contract
pub mod Machine
pub mod Db
pub mod DbLaws
pub mod Service
mod Tests
