-- ===== src/Sched/Switch.antt =====
-- src/sys/scheduler.c: `schedule_common`, `scheduler_yield`, `scheduler_tick` and the tick counts.
pub mod Pick
pub mod Dispatch
pub mod Turn
pub mod Rest
pub mod RoundRobin
use edge_os.Prelude.{ℕ, Bool, true, false, ◌+◌, ◌%◌, ◌^◌, Option, none, some, ◌==◌, if◌then◌else◌}
use edge_os.Prelude.Int.{pos}
use edge_os.Task.{
  Ptr, TaskState, runnable, running, Kernel, put, put_cpu, proc_max_tasks, sched_max_cpus,
}
use edge_os.Sched.Queue.{rq_push_tail_locked, pick_next_runnable_locked}
use edge_os.Sched.Ops.{scheduler_cpu_local, scheduler_cpu_id, set_state}

-- `cpu->current ? cpu->current : cpu->idle`
abbrev pub current_or_idle : Kernel → ℕ → Ptr
current_or_idle k c = if (k.cpus c).current == 0 then (k.cpus c).idle else (k.cpus c).current

-- whether the task that loses the CPU goes back to the queue
abbrev pub goes_back : Bool → TaskState → Bool
goes_back tick_mode running = true
goes_back tick_mode runnable = tick_mode
goes_back tick_mode _ = false

unfoldable pub put_back : Bool → Kernel → ℕ → Ptr → Kernel
put_back tick_mode k c prev =
    if (k.tasks prev).is_idle
    then k
    else if goes_back tick_mode (k.tasks prev).state
    then rq_push_tail_locked (set_state k prev runnable) c prev
    else k

-- `next->assigned_cpu = ...; next->state = TASK_RUNNING; next->need_resched = 0;`
unfoldable pub start_running : Kernel → Ptr → Kernel
start_running k next =
    if next == 0
    then k
    else if (k.tasks next).is_idle
    then k
    else put k next (record (k.tasks next) {
      assigned_cpu = pos (scheduler_cpu_id k);
      state = running;
      need_resched = false;
    })

unfoldable pub set_current : Kernel → ℕ → Ptr → Kernel
set_current k c p = put_cpu k c (record (k.cpus c) { current = p })

-- The loop of `pick_next_runnable_locked` runs once for each task that is queued, and once more.
abbrev pub pick_fuel : ℕ
pick_fuel = proc_max_tasks + sched_max_cpus + 1

-- the part behind the choice
unfoldable pub switch_to_next : Ptr → Kernel → ℕ → Kernel
switch_to_next next k c =
    let k' = start_running k next in set_current k' c (if next == 0 then (k'.cpus c).idle else next)

-- `none` means that the loop of the choice ran out of fuel.
unfoldable pub schedule_common : Bool → Kernel → Option Kernel
schedule_common tick_mode k = elim (scheduler_cpu_local k) [
  | none ↦ some k
  | some c ↦
      if current_or_idle k c == 0
      then some k
      else (elim (pick_next_runnable_locked pick_fuel (put_back tick_mode k c (current_or_idle k c))
          c) [ none ↦ none | some (next, k2) ↦ some (switch_to_next next k2 c) ])
]

unfoldable pub scheduler_yield : Kernel → Option Kernel
scheduler_yield = schedule_common false

-- `!cur->is_idle && cur->state == TASK_RUNNING`
abbrev pub not_idle_running : Bool → TaskState → Bool
not_idle_running false running = true
not_idle_running _ _ = false

unfoldable pub scheduler_tick : Kernel → Kernel
scheduler_tick k = elim (scheduler_cpu_local k) [
  | none ↦ k
  | some c ↦
      let cur = current_or_idle k c in
      if cur == 0
      then k
      else let k1 = record k { total_ticks = (k.total_ticks + 1) % 2 ^ 64 } in
        let k2 =
          if (k.tasks cur).is_idle
          then record k1 { idle_ticks = (k1.idle_ticks + 1) % 2 ^ 64 }
          else k1 in
        if not_idle_running (k.tasks cur).is_idle (k.tasks cur).state
        then put k2 cur (record (k2.tasks cur) { need_resched = true })
        else k2
]
