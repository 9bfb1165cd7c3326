-- ===== src/AggregateStore.antt =====
-- aggregatestore: what the stores of aggregates tell their callers.
pub mod SaveOutcome
pub mod Markers
pub mod Resolution
pub mod Aggregate
pub mod EventSourced
pub mod Cached
pub mod Snapshotting
mod Examples
