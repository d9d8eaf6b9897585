-- ===== src/Sched/Ops.antt =====
-- src/sys/scheduler.c: the functions that other code calls.
use edge_os.Prelude.{
  ℕ, zero, suc, true, false, not, ◌&&◌, Option, none, some, ◌==◌, ltb, if◌then◌else◌,
}
use edge_os.Prelude.Int.{ℤ, pos, neg_one}
use edge_os.Task.{
  Ptr, TaskState, unused, runnable, running, blocked, zombie, Kernel, Cpu, put, put_cpu,
  sched_max_cpus, idle_at, idle_stack_top_of, boot_cr3, idle_loop,
}
use edge_os.Sched.Queue.{rq_push_tail_locked, rq_remove_locked}

-- `cpu_by_id`, as the index of the structure that it returns
unfoldable pub cpu_by_id : ℕ → ℕ
cpu_by_id id = if ltb id sched_max_cpus then id else 0

unfoldable pub scheduler_set_cpu_id : Kernel → ℕ → Kernel
scheduler_set_cpu_id k logical_id = record k {
  local_cpu_id = if ltb logical_id sched_max_cpus then logical_id else 0;
}

unfoldable pub scheduler_cpu_id : Kernel → ℕ
scheduler_cpu_id k = if ltb k.local_cpu_id sched_max_cpus then k.local_cpu_id else 0

-- NULL, or the index of the structure of this CPU
unfoldable pub scheduler_cpu_local : Kernel → Option ℕ
scheduler_cpu_local k = if k.ready then some (cpu_by_id (scheduler_cpu_id k)) else none

unfoldable pub scheduler_current_task : Kernel → Ptr
scheduler_current_task k = elim (scheduler_cpu_local k) [
  | none ↦ idle_at 0
  | some c ↦
      if (k.cpus c).current == 0
      then (if (k.cpus c).idle == 0 then idle_at 0 else (k.cpus c).idle)
      else (k.cpus c).current
]

-- what `scheduler_init` stores for one CPU and its idle task
unfoldable pub init_cpu : Kernel → ℕ → Kernel
init_cpu k i =
    let idle = record (k.tasks (idle_at i)) {
      pid = pos 0;
      ppid = pos 0;
      exit_code = pos 0;
      state = running;
      on_runqueue = false;
      is_idle = true;
      assigned_cpu = pos i;
      rq_prev = 0;
      rq_next = 0;
      parent = 0;
      first_child = 0;
      sibling_prev = 0;
      sibling_next = 0;
      kernel_stack_top = idle_stack_top_of i;
      cr3 = boot_cr3;
      space = record (k.tasks (idle_at i)).space { fs_base = 0 };
      context = record (k.tasks (idle_at i)).context {
        rsp = idle_stack_top_of i;
        rbp = idle_stack_top_of i;
        rip = idle_loop;
      };
    } in
    let cpu : Cpu = record {
      current = idle_at i;
      idle = idle_at i;
      rq_head = 0;
      rq_tail = 0;
      logical_id = i;
    } in
    put_cpu (put k (idle_at i) idle) i cpu

unfoldable pub init_cpus : ℕ → Kernel → Kernel
init_cpus zero k = k
init_cpus (suc n) k = init_cpu (init_cpus n k) n

unfoldable pub scheduler_init : Kernel → Kernel
scheduler_init k =
    if k.ready then k else record (init_cpus sched_max_cpus k) { local_cpu_id = 0; ready = true }

-- `(t->assigned_cpu >= 0) ? (uint32_t)t->assigned_cpu : d`
abbrev pub cpu_or : ℤ → ℕ → ℕ
cpu_or (pos n) d = n
cpu_or _ d = d

-- `if (t->on_runqueue) rq_remove_locked(cpu, t);`
unfoldable pub remove_if_queued : Kernel → ℕ → Ptr → Kernel
remove_if_queued k c t = if (k.tasks t).on_runqueue then rq_remove_locked k c t else k

unfoldable pub assign : Kernel → Ptr → ℤ → TaskState → Kernel
assign k t cpu st = put k t (record (k.tasks t) { assigned_cpu = cpu; state = st })

unfoldable pub scheduler_set_boot_current : Kernel → Ptr → Kernel
scheduler_set_boot_current k t = elim (scheduler_cpu_local k) [
  | none ↦ k
  | some c ↦
      if t == 0
      then k
      else let k1 = remove_if_queued k c t in
        let k2 = assign k1 t (pos (scheduler_cpu_id k1)) running in
        put_cpu k2 c (record (k2.cpus c) { current = t })
]

-- `if (t->on_runqueue && old_cpu_id != cpu_id) ... rq_remove_locked(old_cpu, t);`
unfoldable pub leave_other_cpu : Kernel → Ptr → ℕ → Kernel
leave_other_cpu k t c =
    let old = cpu_or (k.tasks t).assigned_cpu c in
    if (k.tasks t).on_runqueue && not (old == c) then rq_remove_locked k (cpu_by_id old) t else k

unfoldable pub set_assigned_cpu : Kernel → Ptr → ℕ → Kernel
set_assigned_cpu k t c = put k t (record (k.tasks t) { assigned_cpu = pos c })

unfoldable pub set_state : Kernel → Ptr → TaskState → Kernel
set_state k t st = put k t (record (k.tasks t) { state = st })

-- the part of `scheduler_task_make_runnable` behind its guards
unfoldable pub enqueue_on : Kernel → Ptr → ℕ → Kernel
enqueue_on k t c =
    let k2 = set_assigned_cpu (leave_other_cpu k t c) t c in
    let k4 = set_state (remove_if_queued k2 c t) t runnable in rq_push_tail_locked k4 c t

unfoldable pub scheduler_task_make_runnable : Kernel → Ptr → ℕ → Kernel
scheduler_task_make_runnable k t cpu_id =
    if t == 0 then k else if (k.tasks t).is_idle then k else enqueue_on k t (cpu_by_id cpu_id)

-- The CPU that the functions below lock, and what they do first.
unfoldable pub home_id : Kernel → Ptr → ℕ
home_id k t = cpu_or (k.tasks t).assigned_cpu (scheduler_cpu_id k)

unfoldable pub leave_queue : Kernel → Ptr → Kernel
leave_queue k t = remove_if_queued k (cpu_by_id (home_id k t)) t

-- What three of them share: off its queue, and into a state that no queue holds.
unfoldable pub take_off : Kernel → Ptr → TaskState → Kernel
take_off k t st = assign (leave_queue k t) t (pos (home_id k t)) st

unfoldable pub scheduler_task_set_blocked : Kernel → Ptr → Kernel
scheduler_task_set_blocked k t =
    if t == 0 then k else if (k.tasks t).is_idle then k else take_off k t blocked

unfoldable pub scheduler_task_set_zombie : Kernel → Ptr → Kernel
scheduler_task_set_zombie k t =
    if t == 0 then k else if (k.tasks t).is_idle then k else take_off k t zombie

unfoldable pub scheduler_task_set_running : Kernel → Ptr → Kernel
scheduler_task_set_running k t =
    if t == 0 then k else if (k.tasks t).is_idle then k else take_off k t running

unfoldable pub scheduler_task_set_unused : Kernel → Ptr → Kernel
scheduler_task_set_unused k t =
    if t == 0
    then k
    else if (k.tasks t).is_idle
    then k
    else assign (leave_queue k t) t neg_one unused
