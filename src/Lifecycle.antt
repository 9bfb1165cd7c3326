-- ===== src/Lifecycle.antt =====
-- projection/lifecycle: the lifecycle of a named projection as the fold of its events.
pub mod Retirement
pub mod State
pub mod Events
pub mod Poison
pub mod Counting
pub mod Sequence
pub mod Rest
pub mod Sound
pub mod Claims
pub mod Policies
pub mod Cutovers
pub mod Preserved
pub mod Consistent
pub mod Histories
pub mod Commands
pub mod Issued
pub mod Runs
pub mod Retirements
pub mod Retiring
pub mod Draining
pub mod Commanded
pub mod Reaching
mod CommandExamples
mod Examples
