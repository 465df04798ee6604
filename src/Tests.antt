-- ===== src/Tests.antt =====
-- The theorems at concrete inputs, and tests of the definitions.
mod Region
mod Sync
mod Interleave
mod Deque
mod Vector
mod Reentrant
mod Atomic
mod Phases
mod Examples
mod Types
mod Cell
mod ThreadCached
mod Token
mod Guard
mod Queue
