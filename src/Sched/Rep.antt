-- ===== src/Sched/Rep.antt =====
-- The run queues as lists: what the links, the flags and the two ends of each CPU's queue hold.
mod Remove
mod Defs
mod Pop
mod Push
pub use Defs.*
pub use Pop.*
pub use Push.*
pub use Remove.*
