-- ===== src/Run.antt =====
-- packages/core/src/task-runner.ts over packages/core/src/events.ts: one run of a goal.
pub mod Types
pub mod Emit
pub mod Authorize
pub mod Execute
pub mod Invariant
pub mod Gated
pub mod Kept
pub mod History
pub mod Permits
pub mod Cancellation
