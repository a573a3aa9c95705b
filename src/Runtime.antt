-- ===== src/Runtime.antt =====
-- The guards of packages/agent-runtime/src: the retry loop, the rate limiter and the budget.
pub mod Retry
pub mod RateLimiter
pub mod BudgetGuard
mod Tests
