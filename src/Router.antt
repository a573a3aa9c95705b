-- ===== src/Router.antt =====
-- The metering and budgets of the gateway, packages/llm-router/src.
pub mod Catalog
pub mod Cost
pub mod Scope
pub mod Token
pub mod Deltas
pub mod Budget
pub mod Recorder
mod Tests
