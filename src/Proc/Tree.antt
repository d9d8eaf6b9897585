-- ===== src/Proc/Tree.antt =====
-- src/sys/process.c: `task_child_unlink`, `task_child_link` and `process_adopt_orphans`.
pub mod Links
pub mod Kids
pub mod Link
pub mod Adopt
use edge_os.Prelude.{
  ℕ, zero, suc, Bool, true, false, ◌+◌, Option, none, some, ◌==◌, if◌then◌else◌, not, ◌||◌,
}
use edge_os.Prelude.Int.{ℤ, pos, ◌==ℤ◌}
use edge_os.Task.{Ptr, Task, TaskState, unused, Kernel, put, task_at, proc_max_tasks}
use edge_os.Proc.Table.{task_find_by_pid, is_unused}

-- the writes of one field
unfoldable pub set_sibling_prev : Kernel → Ptr → Ptr → Kernel
set_sibling_prev k p v = put k p (record (k.tasks p) { sibling_prev = v })

unfoldable pub set_sibling_next : Kernel → Ptr → Ptr → Kernel
set_sibling_next k p v = put k p (record (k.tasks p) { sibling_next = v })

unfoldable pub set_first_child : Kernel → Ptr → Ptr → Kernel
set_first_child k p v = put k p (record (k.tasks p) { first_child = v })

-- the neighbour before the child, or the parent, is told of the neighbour after it
unfoldable pub unlink_before : Kernel → Ptr → Kernel
unfolding set_sibling_next set_first_child
unlink_before k child =
    let c = k.tasks child in
    if not (c.sibling_prev == 0)
    then set_sibling_next k c.sibling_prev c.sibling_next
    else if not (c.parent == 0)
    then set_first_child k c.parent c.sibling_next
    else k

unfoldable pub unlink_after : Kernel → Ptr → Kernel
unfolding set_sibling_prev
unlink_after k child =
    let c = k.tasks child in
    if c.sibling_next == 0 then k else set_sibling_prev k c.sibling_next c.sibling_prev

unfoldable pub task_child_unlink : Kernel → Ptr → Kernel
unfolding unlink_before unlink_after
task_child_unlink k child =
    if child == 0
    then k
    else let k1 = unlink_after (unlink_before k child) child in
      put k1 child (record (k1.tasks child) { sibling_prev = 0; sibling_next = 0; parent = 0 })

-- the part of `task_child_link` behind the unlinking, for a parent: the child points to the
-- parent and to its first child, this one back, and the parent to the child
unfoldable pub hook_child : Kernel → Ptr → Ptr → Kernel
unfolding set_sibling_next
hook_child k parent child =
    let k1 = put k child (record (k.tasks child) { parent = parent }) in
    set_sibling_next k1 child (k1.tasks parent).first_child

unfoldable pub hook_first : Kernel → Ptr → Ptr → Kernel
unfolding set_sibling_prev
hook_first k parent child =
    let first = (k.tasks parent).first_child in
    if first == 0 then k else set_sibling_prev k first child

unfoldable pub hook_parent : Kernel → Ptr → Ptr → Kernel
unfolding set_first_child
hook_parent k parent child =
    let k1 = set_first_child k parent child in
    put k1 child (record (k1.tasks child) { ppid = (k1.tasks parent).pid })

unfoldable pub link_first : Kernel → Ptr → Ptr → Kernel
link_first k parent child =
    hook_parent (hook_first (hook_child k parent child) parent child) parent child

unfoldable pub task_child_link : Kernel → Ptr → Ptr → Kernel
task_child_link k parent child =
    if child == 0
    then k
    else if parent == 0
    then (let k1 = task_child_unlink k child in
        put k1 child (record (k1.tasks child) { parent = 0; ppid = pos 0 }))
    else link_first (task_child_unlink k child) parent child

-- The walk along the children of a parent, each of which goes to `to`; `none` means that the
-- fuel ran out.
unfoldable pub adopt_children : ℕ → Kernel → Ptr → Ptr → ℕ → Option (ℕ × Kernel)
adopt_children zero k to c moved = none
adopt_children (suc fuel) k to c moved =
    let rest =
      adopt_children fuel (task_child_link k to c) to (k.tasks c).sibling_next (moved + 1) in
    if c == 0 then some (moved, k) else rest

-- The search through the table, where the parent has no slot: `n` slots are left, from `i` on.
unfoldable pub adopt_slots : ℕ → ℕ → Kernel → ℤ → Ptr → ℕ → ℕ × Kernel
adopt_slots zero i k from_ppid to moved = (moved, k)
adopt_slots (suc n) i k from_ppid to moved =
    let t = k.tasks (task_at i) in
    elim (is_unused t.state || not (t.ppid ==ℤ from_ppid)) [
      | true ↦ adopt_slots n (i + 1) k from_ppid to moved
      | false ↦ adopt_slots n (i + 1) (task_child_link k to (task_at i)) from_ppid to (moved + 1)
    ]

-- A task has at most as many children as there are slots.
abbrev pub adopt_fuel : ℕ
adopt_fuel = proc_max_tasks + 1

unfoldable pub process_adopt_orphans : Kernel → ℤ → ℤ → Option (ℕ × Kernel)
process_adopt_orphans k from_ppid to_ppid =
    let from = task_find_by_pid k from_ppid in
    let to = task_find_by_pid k to_ppid in
    if from == 0
    then some (adopt_slots proc_max_tasks 0 k from_ppid to 0)
    else adopt_children adopt_fuel k to (k.tasks from).first_child 0
