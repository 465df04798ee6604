-- ===== src/Atomic/Order.antt =====
-- src/atomic/order.rs: policies that fix the ordering of each operation.

-- `core::sync::atomic::Ordering`
pub data Ordering : Type 0 where
  relaxed release acquire acq_rel seq_cst : Ordering

-- The policies `Relaxed`, `AcqRel` and `SeqCst`, which are types without values of their own.
pub data AtomicOrder : Type 0 where
  relaxed_policy acq_rel_policy seq_cst_policy : AtomicOrder

-- The associated constants `LOAD`, `STORE`, `RMW` and `FAILURE`.
unfoldable pub load : AtomicOrder → Ordering
load relaxed_policy = relaxed
load acq_rel_policy = acquire
load seq_cst_policy = seq_cst

unfoldable pub store : AtomicOrder → Ordering
store relaxed_policy = relaxed
store acq_rel_policy = release
store seq_cst_policy = seq_cst

unfoldable pub rmw : AtomicOrder → Ordering
rmw relaxed_policy = relaxed
rmw acq_rel_policy = acq_rel
rmw seq_cst_policy = seq_cst

unfoldable pub failure : AtomicOrder → Ordering
failure relaxed_policy = relaxed
failure acq_rel_policy = acquire
failure seq_cst_policy = seq_cst

-- `OrderingSource`: an ordering chosen at run time, or a policy.
pub data OrderingSource : Type 0 where
  runtime : Ordering → OrderingSource
  policy : AtomicOrder → OrderingSource

unfoldable pub load_order : OrderingSource → Ordering
unfolding load
load_order (runtime o) = o
load_order (policy p) = load p

unfoldable pub store_order : OrderingSource → Ordering
unfolding store
store_order (runtime o) = o
store_order (policy p) = store p

unfoldable pub rmw_order : OrderingSource → Ordering
unfolding rmw
rmw_order (runtime o) = o
rmw_order (policy p) = rmw p

unfoldable pub failure_order : OrderingSource → Ordering
unfolding failure
failure_order (runtime o) = o
failure_order (policy p) = failure p
