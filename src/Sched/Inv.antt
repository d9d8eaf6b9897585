-- ===== src/Sched/Inv.antt =====
-- src/sys/scheduler.c: the invariant of the scheduler. Its clauses are those that
-- `sched_invariant_check` reports violations of, for every CPU and every task.
mod Defs
mod Leave
mod Settle
mod Ops
pub use Defs.*
pub use Leave.*
pub use Settle.*
pub use Ops.*
