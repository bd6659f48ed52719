-- ===== src/Runtime.antt =====
-- vyomel/runtime: the execution engine.
pub mod State
pub mod Dag
pub mod Gate
pub mod Moves
pub mod Closes
pub mod Ticked
pub mod Reaper
pub mod Retry
pub mod Worker
pub mod Dispatcher
pub mod Lifecycle
pub mod Replan
pub mod Scheduler
pub mod Cancel
mod Fixture
mod Examples
