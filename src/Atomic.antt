-- ===== src/Atomic.antt =====
-- src/atomic: the orderings that the branded atomics pass to the standard library's, and their
-- operations.
pub mod Order
pub mod Primitive
pub mod Branded
pub mod Sound
pub mod Phases
