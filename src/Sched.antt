-- ===== src/Sched.antt =====
-- src/sys/scheduler.c: the per-CPU run queues, the state changes of a task, and the choice of the
-- next task. A section between `spin_lock_irqsave` and `spin_unlock_irqrestore` is one step here,
-- and the debug output is left out. What `switch_to` does to registers is outside of the model:
-- `schedule_common` ends with the new `current`.
pub mod Queue
pub mod Ops
pub mod Rep
pub mod Inv
pub mod Switch
pub mod Boot
mod Tests
