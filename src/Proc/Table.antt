-- ===== src/Proc/Table.antt =====
-- src/sys/process.c: slots of the task table, found by pid and handed out.
pub mod Find
use edge_os.Prelude.{
  ℕ, zero, suc, Bool, true, false, ◌+◌, ◌-◌, Option, none, some, ◌==◌, if◌then◌else◌, ltb, not,
  ◌&&◌,
}
use edge_os.Prelude.Int.{ℤ, pos, neg_one, ◌==ℤ◌}
use edge_os.Task.{Ptr, TaskState, unused, Kernel, task_at, proc_max_tasks}

abbrev pub user_as_max_tasks : ℕ
user_as_max_tasks = 16

abbrev pub is_unused : TaskState → Bool
is_unused unused = true
is_unused _ = false

-- The search for the first slot that passes a test: `n` slots are left, from slot `i` on.
unfoldable pub find_slot : (ℕ → Bool) → ℕ → ℕ → Ptr
find_slot test zero i = 0
find_slot test (suc n) i = elim (test i) [ true ↦ task_at i | false ↦ find_slot test n (i + 1) ]

-- `g_tasks[i].state != TASK_UNUSED && g_tasks[i].pid == pid`
abbrev pub holds_pid : Kernel → ℤ → ℕ → Bool
holds_pid k pid i =
    not (is_unused (k.tasks (task_at i)).state) && ((k.tasks (task_at i)).pid ==ℤ pid)

unfoldable pub task_find_by_pid : Kernel → ℤ → Ptr
task_find_by_pid k pid = find_slot (holds_pid k pid) proc_max_tasks 0

-- of a pointer into the table; NULL gives -1
unfoldable pub task_index : Ptr → ℤ
task_index t = if t == 0 then neg_one else pos (t - 1)

unfoldable pub task_alloc : Kernel → Ptr
task_alloc k = find_slot (λ i. is_unused (k.tasks (task_at i)).state) user_as_max_tasks 0
