-- ===== src/Lib.antt =====
-- Melinoe: branded cells whose access is gated by tokens, and what the crate builds on them: regions
-- cut into shards, closures run on the shards in parallel, segmented collections, gates against
-- re-entry and atomics that are plain in an exclusive phase.
--
-- The parts, from the bottom up.
-- Machine.antt has the `usize` arithmetic of a 64-bit target, as a release build computes it, and
-- the two ends of a call, a return and a panic.
-- Region.antt (src/region): a memory is a list of values, a slice of cells a base and a length in
-- it. A `WriterShard` (Region/Shard.antt) reads and writes its stretch, `ParChunks`
-- (Region/ParChunks.antt) gives the shard of an index, `ShardChunks` (Region/Chunks.antt) the shards
-- in turn; a panic is `none`, and so is an iterator left in a state that cannot be. Tiling.antt is
-- `partition_count`.
-- Sync.antt (src/sync/scoped/partition): Plan.antt turns a plan into a chunk length, Executor.antt
-- is the registry of a parallel executor with the contract of its trait as `Honours`, OutBuffer.antt
-- the out-buffer with the task that fills a slot of it and its teardown, Driver.antt `drive`,
-- Map.antt and ReadMap.antt the entry points. A closure is a function of its index, its shard and a
-- state; the tasks run one after another in an order that the executor or the operating system
-- chooses, which is a parameter (`Process`). A thread that never ends is an index that is missing in
-- the order; `blocked` is a scope that waits for it. Interleave.antt has the tasks of an executor's
-- call as threads whose steps come in any order: a closure is there a tree of steps on its shard
-- (`Work`), and `task_wrapper` writes the slot and the flag in two steps. Interleave/Scoped.antt has
-- the same for scoped threads. A mutex is held for one step, and memory is the same for all threads.
-- Deque.antt (src/collections/deque/partition.rs): the plan that cuts the two segments of a ring
-- buffer into shards, and the maps over them (Deque/Maps.antt). Its loop runs on fuel, which its
-- callers pass on; a step that does not wrap around moves the start by at least one, so that the
-- length of the queue is enough.
-- Vector.antt (src/collections/branded_vec): a vector of cells as the list of their values, its
-- operations, and its partitions, for which its storage is a region that begins at 0. Views.antt has
-- its constructors and what a permit shows of it, Drains.antt its drain.
-- Queue.antt (src/collections/deque): the operations of a deque on the two segments of its storage
-- (Queue/Ring.antt, the standard library's part), its views (Views.antt) and its drain (Drains.antt).
-- After an operation that may move the values the library chooses where the storage wraps: that is the
-- argument `seam`; values that would be alone in the second segment are the first. Program.antt has the programs
-- that use a deque, and the same on a list.
-- Drain.antt: what the drains of the two collections share.
-- Token.antt (src/token, src/sync/tokens): families of tokens, tokens, permits. A brand and a thread
-- are numbers. World.antt adds the cells (src/cell/melinoe_cell.rs, src/cell/slice.rs): a state of
-- tokens, of permits and views in use, and of cells, with each operation as a step that is `none` when
-- it does not compile. What Rust itself asks of borrows is part of these steps, `Clear.antt` has its
-- lemmas; what the crate adds are the brands of a scope, the bounds on permits, `share` and the markers
-- of a family. Run.antt has the programs as lists of steps, Valid.antt the invariant of their states.
-- Sync/Handoff.antt (src/sync/scoped/mod.rs) runs such a program on a thread of its own.
-- Guard.antt (src/cell/reference.rs): a reference as the way to read and write a value in a store; the
-- guards are references with a brand, and are projected to parts of the value.
-- Reentrant.antt (src/reentrant): the flag of a gate as a state, programs that enter a gate within
-- another as trees.
-- Cell.antt (src/cell/cow.rs): the policies by which a view is borrowed or copied.
-- ThreadCached.antt (src/thread_cached.rs): the operations on the cell that `thread_local!` gives a
-- thread, one cell for each thread, and the calls of all threads as one list.
-- Atomic.antt (src/atomic): the ordering policies (Order.antt), the standard library's atomics on
-- bit patterns with the orderings that they refuse, and the trait that forwards to them
-- (Primitive.antt), and the branded atomics
-- (Branded.antt). Phases.antt puts them into the memory of Token/World.antt: a plain access is a `&mut`
-- view, from the call of `with_exclusive` to its end, and an atomic operation asks for a permit.
-- Examples.antt (examples): the programs of the book with their assertions, and the probes of
-- codegen.rs beside the raw operations.
-- Types.antt: the fields of the crate's types, and what the compiler makes of them: sizes (with
-- src/static_assertions.rs in Types/Checks.antt), and whether a type is `Send` and `Sync`
-- (Types/Markers.antt).
--
-- Not modelled: that Rust infers the brands and lifetimes of a program, and reborrows, which are a
-- release and a new loan; the weak memory of atomics, whose operations take effect one at a time
-- here; allocation and capacity; formatting; the build script; a closure of
-- `BrandedVecDeque::retain_mut` that panics, where the library leaves the values in some order.
pub mod Prelude
pub mod Machine
pub mod Region
pub mod Sync
pub mod Deque
pub mod Vector
pub mod Reentrant
pub mod Cell
pub mod Token
pub mod Guard
pub mod Drain
pub mod Queue
pub mod ThreadCached
pub mod Atomic
pub mod Types
pub mod Examples
pub mod Tests
