-- ===== src/Proc/Wait.antt =====
-- src/sys/process.c: `process_wait_any` and `process_wait_pid`, one turn of their loops at a time.
-- Between two turns the task is blocked and other tasks run.
pub mod Turn
use edge_os.Prelude.{
  ℕ, zero, suc, Bool, true, false, ◌+◌, ◌-◌, ◌*◌, ◌/◌, ◌%◌, Option, none, some, List, ◌∷◌, ◌==◌,
  if◌then◌else◌, ltb, not,
}
use edge_os.Prelude.Int.{ℤ, pos, negsuc, neg_one, ◌==ℤ◌}
use edge_os.Task.{Ptr, Task, Kernel, zero_task, put, proc_max_tasks}
use edge_os.Sched.Ops.{scheduler_task_set_blocked, scheduler_task_set_unused}
use edge_os.Proc.Tree.{task_child_unlink}
use edge_os.Proc.Cred.{process_current_task}
use edge_os.Proc.Exit.{is_zombie}

-- `(exit_code & 0xFF) << 8`, of a number in two's complement
unfoldable pub wait_status : ℤ → ℕ
wait_status (pos n) = (n % 256) * 256
wait_status (negsuc n) = (255 - n % 256) * 256

-- the children that `process_wait_pid` waits for
unfoldable pub wait_matches : ℤ → ℤ → Task → Bool
wait_matches (pos zero) pgid t = t.pgid ==ℤ pgid
wait_matches (pos (suc n)) pgid t = t.pid ==ℤ pos (suc n)
wait_matches (negsuc zero) pgid t = true
wait_matches (negsuc (suc n)) pgid t = t.pgid ==ℤ pos (suc (suc n))

-- How the walk along the children ends: at a zombie, or behind the last child, with the flag
-- that the loop sets on every child that matches.
pub data Scan : Type 0 where
  found : Ptr → Scan
  behind : Bool → Scan

unfoldable pub wait_scan : ℕ → Kernel → (Task → Bool) → Ptr → Bool → Option Scan
wait_scan zero k matches t has_match = none
wait_scan (suc fuel) k matches t has_match =
    let u = k.tasks t in
    let skip = wait_scan fuel k matches u.sibling_next has_match in
    let pass = wait_scan fuel k matches u.sibling_next true in
    if t == 0
    then some (behind has_match)
    else if matches u
    then (if is_zombie u.state then some (found t) else pass)
    else skip

-- a task has at most as many children as there are slots
abbrev pub wait_fuel : ℕ
wait_fuel = proc_max_tasks + 1

unfoldable pub reap : Kernel → Ptr → Kernel
reap k t =
    let k1 = record k { released = (k.tasks t).pid ∷ k.released } in
    let k2 = scheduler_task_set_unused (task_child_unlink k1 t) t in put k2 t zero_task

-- One turn: the call returns, with a status where it reaped a child, or the task is blocked and
-- yields.
pub data WaitTurn : Type 0 where
  returns : ℤ → Option ℕ → Kernel → WaitTurn
  blocks : Kernel → WaitTurn

-- what the loop does when the walk has ended
unfoldable pub after_scan : Kernel → Ptr → Bool → Scan → WaitTurn
after_scan k parent nohang (found t) =
    returns (k.tasks t).pid (some (wait_status (k.tasks t).exit_code)) (reap k t)
after_scan k parent nohang (behind has_match) =
    if not has_match
    then returns neg_one none k
    else if nohang
    then returns (pos 0) none k
    else blocks (scheduler_task_set_blocked k parent)

unfoldable pub wait_turn : Kernel → Ptr → (Task → Bool) → Bool → Option WaitTurn
wait_turn k parent matches nohang =
    elim (wait_scan wait_fuel k matches (k.tasks parent).first_child false) [
      | none ↦ none
      | some s ↦ some (after_scan k parent nohang s)
    ]

unfoldable pub process_wait_any : Kernel → Option WaitTurn
process_wait_any k =
    let parent = process_current_task k in
    if parent == 0 then some (returns neg_one none k) else wait_turn k parent (λ t. true) false

-- `options & 1` is WNOHANG
unfoldable pub process_wait_pid : Kernel → ℤ → ℕ → Option WaitTurn
process_wait_pid k pid options =
    let parent = process_current_task k in
    if parent == 0
    then some (returns neg_one none k)
    else wait_turn k parent (wait_matches pid (k.tasks parent).pgid) (options % 2 == 1)
