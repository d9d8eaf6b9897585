-- ===== src/Proc/Exit.antt =====
-- src/sys/process.c: the end of a process, by its own exit, by a kill or by a signal, and the
-- signals that are delivered instead.
pub mod Place
pub mod Parent
pub mod Ends
use edge_os.Prelude.{
  ℕ, zero, suc, Bool, true, false, ◌+◌, Option, none, some, ◌==◌, if◌then◌else◌, ltb, not, ◌&&◌,
  ◌||◌,
}
use edge_os.Prelude.Int.{ℤ, pos, negsuc, neg_one, ◌==ℤ◌, is_nonneg, to_ℕ}
use edge_os.Task.{
  Ptr, Task, TaskState, unused, runnable, running, blocked, zombie, Kernel, Signals, put, task_at,
  proc_max_tasks,
}
use edge_os.Sched.Ops.{
  scheduler_cpu_id, scheduler_task_make_runnable, scheduler_task_set_zombie,
  scheduler_task_set_blocked, scheduler_task_set_unused,
}
use edge_os.Proc.Table.{task_find_by_pid, is_unused}
use edge_os.Proc.Tree.{task_child_link, task_child_unlink, process_adopt_orphans}
use edge_os.Proc.Cred.{process_current_task}

abbrev pub linux_sigint : ℤ
linux_sigint = pos 2

abbrev pub linux_sigkill : ℤ
linux_sigkill = pos 9

abbrev pub linux_sigterm : ℤ
linux_sigterm = pos 15

abbrev pub linux_sig_dfl : ℕ
linux_sig_dfl = 0

abbrev pub linux_sig_ign : ℕ
linux_sig_ign = 1

abbrev pub is_blocked : TaskState → Bool
is_blocked blocked = true
is_blocked _ = false

abbrev pub is_zombie : TaskState → Bool
is_zombie zombie = true
is_zombie _ = false

-- `t->state == TASK_UNUSED || t->state == TASK_ZOMBIE`
abbrev pub is_dead : TaskState → Bool
is_dead s = is_unused s || is_zombie s

unfoldable pub set_sig : Kernel → Ptr → Signals → Kernel
set_sig k t s = put k t (record (k.tasks t) { sig = s })

unfoldable pub set_exit_code : Kernel → Ptr → ℤ → Kernel
set_exit_code k t code = put k t (record (k.tasks t) { exit_code = code })

-- the CPU of the task, or the one that runs the code
abbrev pub wake_cpu : Kernel → Ptr → ℕ
wake_cpu k t =
    if is_nonneg (k.tasks t).assigned_cpu then to_ℕ (k.tasks t).assigned_cpu else scheduler_cpu_id k

unfoldable pub wake_if_blocked : Kernel → Ptr → Kernel
wake_if_blocked k t =
    if is_blocked (k.tasks t).state then scheduler_task_make_runnable k t (wake_cpu k t) else k

unfoldable pub note_sigchld : Kernel → Ptr → Kernel
note_sigchld k t =
    if (k.tasks t).sig.sigchld_handler == linux_sig_ign
    then k
    else set_sig k t (record (k.tasks t).sig { sigchld_pending = true })

unfoldable pub process_notify_parent_sigchld : Kernel → Ptr → Kernel
process_notify_parent_sigchld k parent =
    if parent == 0
    then k
    else if is_dead (k.tasks parent).state
    then k
    else wake_if_blocked (note_sigchld k parent) parent

-- Where the parent ignores SIGCHLD, the first process takes the task over; the second result is
-- the parent that is told.
unfoldable pub give_to_init : Kernel → Ptr → Kernel × Ptr
give_to_init k t =
    let parent = (k.tasks t).parent in
    let init = task_find_by_pid k (pos 1) in
    if not (parent == 0)
      && ((k.tasks parent).sig.sigchld_handler == linux_sig_ign)
      && not (init == 0)
    then (task_child_link (task_child_unlink k t) init t, init)
    else (k, parent)

-- what `process_exit_current` and `process_kill_pid` do from the store of the exit code on
unfoldable pub end_task : Kernel → Ptr → ℤ → Option Kernel
end_task k t code = elim (process_adopt_orphans (set_exit_code k t code) (k.tasks t).pid (pos 1)) [
  | none ↦ none
  | some (moved, k1) ↦
      let (k2, parent) = give_to_init k1 t in
      some (process_notify_parent_sigchld (scheduler_task_set_zombie k2 t) parent)
]

-- `process_exit_current` returns, or it halts the machine, or the task has ended
pub data Exit : Type 0 where
  no_task halts : Exit
  ended : Kernel → Exit

unfoldable pub process_exit_current : Kernel → ℤ → Option Exit
process_exit_current k code =
    let cur = process_current_task k in
    if cur == 0
    then some no_task
    else if (k.tasks cur).pid ==ℤ pos 1
    then some halts
    else elim (end_task k cur code) [ none ↦ none | some k1 ↦ some (ended k1) ]

unfoldable pub process_kill_pid : Kernel → ℤ → ℤ → Option (ℤ × Kernel)
process_kill_pid k pid code =
    let t = task_find_by_pid k pid in
    if t == 0
    then some (neg_one, k)
    else if pid ==ℤ pos 1
    then some (neg_one, k)
    else elim (end_task k t code) [ none ↦ none | some k1 ↦ some (pos 0, k1) ]

-- the body of the loop of `process_kill_pgid`, for a member of the group
unfoldable pub kill_member : Kernel → Ptr → ℤ → Option Kernel
kill_member k t code =
    elim (process_adopt_orphans (set_exit_code k t code) (k.tasks t).pid (pos 1)) [
      | none ↦ none
      | some (moved, k1) ↦
          let k2 = scheduler_task_set_zombie k1 t in
          let parent = (k2.tasks t).parent in
          some (if parent == 0 then k2 else wake_if_blocked k2 parent)
    ]

unfoldable pub kill_slots : ℕ → ℕ → Kernel → ℤ → ℤ → ℕ → Option (ℕ × Kernel)
kill_slots zero i k pgid code killed = some (killed, k)
kill_slots (suc n) i k pgid code killed =
    let t = k.tasks (task_at i) in
    elim (is_unused t.state || (t.pid ==ℤ pos 1) || not (t.pgid ==ℤ pgid)) [
      | true ↦ kill_slots n (i + 1) k pgid code killed
      | false ↦ elim (kill_member k (task_at i) code) [
        | none ↦ none
        | some k1 ↦ kill_slots n (i + 1) k1 pgid code (killed + 1)
      ]
    ]

-- `x > 0`
abbrev pub is_positive : ℤ → Bool
is_positive (pos n) = ltb 0 n
is_positive (negsuc n) = false

unfoldable pub process_kill_pgid : Kernel → ℤ → ℤ → Option (ℤ × Kernel)
process_kill_pgid k pgid code =
    if not (is_positive pgid)
    then some (neg_one, k)
    else elim (kill_slots proc_max_tasks 0 k pgid code 0) [
      | none ↦ none
      | some (killed, k1) ↦ some (if ltb 0 killed then pos 0 else neg_one, k1)
    ]

-- `128 + sig` of a signal that is not negative
abbrev pub signal_code : ℤ → ℤ
signal_code sig = pos (128 + to_ℕ sig)

-- the kill of a task that does not handle the signal
unfoldable pub signal_kill : Kernel → Ptr → ℤ → Option (ℤ × Kernel)
signal_kill k t sig =
    if (k.tasks t).pid ==ℤ pos 1
    then some (neg_one, k)
    else process_kill_pid k (k.tasks t).pid (signal_code sig)

unfoldable pub mark_pending : Kernel → Ptr → ℤ → Kernel
mark_pending k t sig =
    if sig ==ℤ linux_sigint
    then set_sig k t (record (k.tasks t).sig { sigint_pending = true })
    else if sig ==ℤ linux_sigterm
    then set_sig k t (record (k.tasks t).sig { sigterm_pending = true })
    else k

unfoldable pub process_signal_one : Kernel → Ptr → ℤ → Option (ℤ × Kernel)
process_signal_one k t sig =
    let u = k.tasks t in
    let handler = if sig ==ℤ linux_sigint then u.sig.sigint_handler else u.sig.sigterm_handler in
    if t == 0
    then some (neg_one, k)
    else if is_dead u.state
    then some (neg_one, k)
    else if sig ==ℤ linux_sigkill
    then signal_kill k t sig
    else if not (sig ==ℤ linux_sigint) && not (sig ==ℤ linux_sigterm)
    then some (neg_one, k)
    else if handler == linux_sig_ign
    then some (pos 0, k)
    else if handler == linux_sig_dfl
    then signal_kill k t sig
    else some (pos 0, wake_if_blocked (mark_pending k t sig) t)

unfoldable pub process_send_signal : Kernel → ℤ → ℤ → Option (ℤ × Kernel)
process_send_signal k pid sig =
    if not (is_positive pid)
    then some (neg_one, k)
    else if task_find_by_pid k pid == 0
    then some (neg_one, k)
    else process_signal_one k (task_find_by_pid k pid) sig

unfoldable pub signal_slots : ℕ → ℕ → Kernel → ℤ → ℤ → ℕ → Option (ℕ × Kernel)
signal_slots zero i k pgid sig delivered = some (delivered, k)
signal_slots (suc n) i k pgid sig delivered =
    let t = k.tasks (task_at i) in
    elim (is_dead t.state || not (t.pgid ==ℤ pgid)) [
      | true ↦ signal_slots n (i + 1) k pgid sig delivered
      | false ↦ elim (process_signal_one k (task_at i) sig) [
        | none ↦ none
        | some (r, k1) ↦
            signal_slots n (i + 1) k1 pgid sig (if r ==ℤ pos 0 then delivered + 1 else delivered)
      ]
    ]

unfoldable pub process_send_signal_pgid : Kernel → ℤ → ℤ → Option (ℤ × Kernel)
process_send_signal_pgid k pgid sig =
    if not (is_positive pgid)
    then some (neg_one, k)
    else elim (signal_slots proc_max_tasks 0 k pgid sig 0) [
      | none ↦ none
      | some (delivered, k1) ↦ some (if ltb 0 delivered then pos 0 else neg_one, k1)
    ]

unfoldable pub process_pick_target_cpu : Kernel → ℕ
process_pick_target_cpu k = scheduler_cpu_id k

-- The default case of the `switch` is for no value of the enumeration.
unfoldable pub process_set_state : Kernel → ℤ → TaskState → ℤ × Kernel
process_set_state k pid state =
    let t = task_find_by_pid k pid in
    let cpu =
      if is_nonneg (k.tasks t).assigned_cpu
      then to_ℕ (k.tasks t).assigned_cpu
      else process_pick_target_cpu k in
    if t == 0 then (neg_one, k) else elim state [
      | runnable ↦ (pos 0, scheduler_task_make_runnable k t cpu)
      | running ↦ (pos 0, scheduler_task_make_runnable k t cpu)
      | blocked ↦ (pos 0, scheduler_task_set_blocked k t)
      | zombie ↦ (pos 0, scheduler_task_set_zombie k t)
      | unused ↦ (pos 0, scheduler_task_set_unused k t)
    ]
