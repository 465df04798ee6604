-- ===== src/Sync.antt =====
-- src/sync/scoped: work on the disjoint shards of a region, on several threads.
pub mod Plan
pub mod Executor
pub mod OutBuffer
pub mod Process
pub mod Driver
pub mod Map
pub mod ReadMap
pub mod Handoff
pub mod Interleave
