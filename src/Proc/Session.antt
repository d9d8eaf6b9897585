-- ===== src/Proc/Session.antt =====
-- src/sys/process.c: process groups and sessions.
pub mod Leader
use edge_os.Prelude.{ℕ, ◌==◌, if◌then◌else◌, not, ◌&&◌, ◌||◌}
use edge_os.Prelude.Int.{ℤ, pos, neg_one, ◌==ℤ◌, is_nonneg}
use edge_os.Task.{Ptr, Kernel, put}
use edge_os.Proc.Table.{task_find_by_pid}
use edge_os.Proc.Cred.{process_current_task}

-- `PROCESS_CTTY_NONE` and `PROCESS_CTTY_CONSOLE`
abbrev pub ctty_none : ℕ
ctty_none = 0

abbrev pub ctty_console : ℕ
ctty_console = 1

-- `if (pid == 0) pid = own;`
abbrev pub or_own : ℤ → ℤ → ℤ
or_own pid own = if pid ==ℤ pos 0 then own else pid

unfoldable pub set_pgid : Kernel → Ptr → ℤ → Kernel
set_pgid k t pgid = put k t (record (k.tasks t) { pgid = pgid })

unfoldable pub process_setpgid : Kernel → ℤ → ℤ → ℤ × Kernel
process_setpgid k pid pgid =
    let cur = process_current_task k in
    let t = task_find_by_pid k (or_own pid (k.tasks cur).pid) in
    let group = or_own pgid (k.tasks t).pid in
    let leader = task_find_by_pid k group in
    if (cur == 0) || (t == 0)
    then (neg_one, k)
    else if not ((k.tasks t).sid ==ℤ (k.tasks cur).sid)
    then (neg_one, k)
    else if not (is_nonneg group)
    then (neg_one, k)
    else if not (group ==ℤ (k.tasks t).pid)
        && ((leader == 0) || not ((k.tasks leader).sid ==ℤ (k.tasks cur).sid))
    then (neg_one, k)
    else (pos 0, set_pgid k t group)

unfoldable pub process_getpgid : Kernel → ℤ → ℤ
process_getpgid k pid =
    let cur = process_current_task k in
    let t = task_find_by_pid k (or_own pid (k.tasks cur).pid) in
    if (cur == 0) || (t == 0) then neg_one else (k.tasks t).pgid

unfoldable pub process_getsid : Kernel → ℤ → ℤ
process_getsid k pid =
    let cur = process_current_task k in
    let t = task_find_by_pid k (or_own pid (k.tasks cur).pid) in
    if (cur == 0) || (t == 0) then neg_one else (k.tasks t).sid

unfoldable pub process_setsid : Kernel → ℤ × Kernel
process_setsid k =
    let cur = process_current_task k in
    let t = k.tasks cur in
    if cur == 0 then (neg_one, k) else if t.pgid ==ℤ t.pid then (neg_one, k) else (
      t.pid,
      put k cur (record t { sid = t.pid; pgid = t.pid; ctty_kind = ctty_none; ctty_id = neg_one }),
    )
