-- ===== src/Orchestrator.antt =====
-- `RunOrchestrator` of packages/control-plane/src/run/run-orchestrator.ts: what it asks of its
-- dependencies (World), how it consumes the worker's stream (Stream), a whole run (Execute) and
-- what is proved of it.
pub mod World
pub mod Stream
pub mod Execute
pub mod Keeps
pub mod Steps
pub mod Marks
pub mod Markers
pub mod Cleanup
pub mod Access
mod Tests
