-- ===== src/Sched/Queue.antt =====
-- src/sys/scheduler.c: `rq_pop_head_locked`, `rq_push_tail_locked`, `rq_remove_locked` and
-- `pick_next_runnable_locked`.
pub mod Links
pub mod Moves
use edge_os.Prelude.{
  ℕ, zero, suc, Bool, true, false, not, ◌||◌, Option, none, some, ◌==◌, if◌then◌else◌, ltb,
}
use edge_os.Task.{
  Ptr, Task, TaskState, unused, runnable, running, blocked, zombie, Kernel, Cpu, put, put_cpu,
  sched_max_cpus,
}

-- the writes of one field
unfoldable pub set_rq_prev : Kernel → Ptr → Ptr → Kernel
set_rq_prev k p v = put k p (record (k.tasks p) { rq_prev = v })

unfoldable pub set_rq_next : Kernel → Ptr → Ptr → Kernel
set_rq_next k p v = put k p (record (k.tasks p) { rq_next = v })

unfoldable pub set_rq_head : Kernel → ℕ → Ptr → Kernel
set_rq_head k c v = put_cpu k c (record (k.cpus c) { rq_head = v })

unfoldable pub set_rq_tail : Kernel → ℕ → Ptr → Kernel
set_rq_tail k c v = put_cpu k c (record (k.cpus c) { rq_tail = v })

-- `t->rq_prev = 0; t->rq_next = 0; t->on_runqueue = 0;`
unfoldable pub rq_clear : Kernel → Ptr → Kernel
rq_clear k t = put k t (record (k.tasks t) { rq_prev = 0; rq_next = 0; on_runqueue = false })

unfoldable pub rq_pop_head_locked : Kernel → ℕ → Ptr × Kernel
unfolding set_rq_head set_rq_tail set_rq_prev rq_clear
rq_pop_head_locked k c =
    let t = (k.cpus c).rq_head in
    if t == 0
    then (0, k)
    else let k1 = set_rq_head k c (k.tasks t).rq_next in
      let next = (k1.cpus c).rq_head in
      let k2 = if next == 0 then set_rq_tail k1 c 0 else set_rq_prev k1 next 0 in (t, rq_clear k2 t)

-- the writes of a push of a task that is on no queue
unfoldable pub rq_link_tail : Kernel → ℕ → Ptr → Kernel
unfolding set_rq_head set_rq_tail set_rq_next
rq_link_tail k c t =
    let tail = (k.cpus c).rq_tail in
    let k1 = put k t (record (k.tasks t) { rq_prev = tail; rq_next = 0 }) in
    let k2 = if tail == 0 then set_rq_head k1 c t else set_rq_next k1 tail t in
    let k3 = set_rq_tail k2 c t in put k3 t (record (k3.tasks t) { on_runqueue = true })

unfoldable pub rq_push_tail_locked : Kernel → ℕ → Ptr → Kernel
rq_push_tail_locked k c t =
    if t == 0 then k else if (k.tasks t).on_runqueue then k else rq_link_tail k c t

-- `if (t->rq_prev) t->rq_prev->rq_next = t->rq_next; else cpu->rq_head = t->rq_next;`
unfoldable pub rq_unlink_prev : Kernel → ℕ → Ptr → Kernel
unfolding set_rq_head set_rq_next
rq_unlink_prev k c t =
    if (k.tasks t).rq_prev == 0
    then set_rq_head k c (k.tasks t).rq_next
    else set_rq_next k (k.tasks t).rq_prev (k.tasks t).rq_next

-- `if (t->rq_next) t->rq_next->rq_prev = t->rq_prev; else cpu->rq_tail = t->rq_prev;`
unfoldable pub rq_unlink_next : Kernel → ℕ → Ptr → Kernel
unfolding set_rq_tail set_rq_prev
rq_unlink_next k c t =
    if (k.tasks t).rq_next == 0
    then set_rq_tail k c (k.tasks t).rq_prev
    else set_rq_prev k (k.tasks t).rq_next (k.tasks t).rq_prev

unfoldable pub rq_remove_locked : Kernel → ℕ → Ptr → Kernel
unfolding rq_unlink_prev rq_unlink_next rq_clear
rq_remove_locked k c t =
    if t == 0
    then k
    else if (k.tasks t).on_runqueue
    then rq_clear (rq_unlink_next (rq_unlink_prev k c t) c t) t
    else k

abbrev pub is_runnable : TaskState → Bool
is_runnable runnable = true
is_runnable _ = false

-- The loop pops until it meets a runnable task; `none` means that the fuel ran out.
unfoldable pub pick_next_runnable_locked : ℕ → Kernel → ℕ → Option (Ptr × Kernel)
pick_next_runnable_locked zero k c = none
pick_next_runnable_locked (suc fuel) k c =
    let (t, k') = rq_pop_head_locked k c in
    let rest = pick_next_runnable_locked fuel k' c in
    if t == 0
    then some ((k'.cpus c).idle, k')
    else if is_runnable (k'.tasks t).state
    then some (t, k')
    else rest
