-- ===== src/Proc/Cred.antt =====
-- src/sys/process.c: user and group ids and the file mask of the current task. An `uint32_t` is
-- a number below 2^32; `(uint32_t)-1` is the largest of them.
pub mod Confined
use edge_os.Prelude.{
  ℕ, Bool, true, false, ◌%◌, Option, none, some, ◌==◌, if◌then◌else◌, not, ◌&&◌, ◌||◌,
}
use edge_os.Prelude.Int.{ℤ, pos, neg_one}
use edge_os.Task.{Ptr, Task, Cred, Kernel, put}
use edge_os.Sched.Ops.{scheduler_current_task}

abbrev pub minus_one : ℕ
minus_one = 4294967295

unfoldable pub process_current_task : Kernel → Ptr
process_current_task k = scheduler_current_task k

-- an accessor of the current task, and its result without one
abbrev pub of_current {ℓ} : {A : Type ℓ} → Kernel → A → (Task → A) → A
of_current k d f = let cur = process_current_task k in if cur == 0 then d else f (k.tasks cur)

unfoldable pub process_getpid : Kernel → ℤ
process_getpid k = of_current k (pos 0) (λ t. t.pid)

unfoldable pub process_getppid : Kernel → ℤ
process_getppid k = of_current k (pos 0) (λ t. t.ppid)

unfoldable pub process_getuid : Kernel → ℕ
process_getuid k = of_current k 0 (λ t. t.cred.uid)

unfoldable pub process_getgid : Kernel → ℕ
process_getgid k = of_current k 0 (λ t. t.cred.gid)

unfoldable pub process_geteuid : Kernel → ℕ
process_geteuid k = of_current k 0 (λ t. t.cred.euid)

unfoldable pub process_getegid : Kernel → ℕ
process_getegid k = of_current k 0 (λ t. t.cred.egid)

unfoldable pub set_cred : Kernel → Ptr → Cred → Kernel
set_cred k t c = put k t (record (k.tasks t) { cred = c })

-- the ids that a call sets, `none` where it is denied
unfoldable pub setuid_cred : Cred → ℕ → Option Cred
setuid_cred c uid =
    if c.euid == 0
    then some (record c { uid = uid; euid = uid })
    else if (uid == c.uid) || (uid == c.euid)
    then some (record c { euid = uid })
    else none

unfoldable pub setgid_cred : Cred → ℕ → Option Cred
setgid_cred c gid =
    if c.euid == 0
    then some (record c { gid = gid; egid = gid })
    else if (gid == c.gid) || (gid == c.egid)
    then some (record c { egid = gid })
    else none

-- an id that is given and is neither of the two that the task has
abbrev pub foreign_id : ℕ → ℕ → ℕ → Bool
foreign_id id real effective = not (id == minus_one) && not (id == real) && not (id == effective)

abbrev pub or_keep : ℕ → ℕ → ℕ
or_keep id old = if id == minus_one then old else id

unfoldable pub setreuid_cred : Cred → ℕ → ℕ → Option Cred
setreuid_cred c ruid euid =
    if not (c.euid == 0) && (foreign_id ruid c.uid c.euid || foreign_id euid c.uid c.euid)
    then none
    else some (record c { uid = or_keep ruid c.uid; euid = or_keep euid c.euid })

unfoldable pub setregid_cred : Cred → ℕ → ℕ → Option Cred
setregid_cred c rgid egid =
    if not (c.euid == 0) && (foreign_id rgid c.gid c.egid || foreign_id egid c.gid c.egid)
    then none
    else some (record c { gid = or_keep rgid c.gid; egid = or_keep egid c.egid })

-- a call on the current task: the result of success, that of failure, and the state
abbrev pub on_current {ℓ} : {A : Type ℓ} → Kernel → (Cred → Option Cred) → A → A → A × Kernel
on_current k change good bad =
    let cur = process_current_task k in
    if cur == 0
    then (bad, k)
    else elim (change (k.tasks cur).cred) [ none ↦ (bad, k) | some c ↦ (good, set_cred k cur c) ]

unfoldable pub process_setuid : Kernel → ℕ → ℕ × Kernel
process_setuid k uid = on_current k (λ c. setuid_cred c uid) 0 minus_one

unfoldable pub process_setgid : Kernel → ℕ → ℕ × Kernel
process_setgid k gid = on_current k (λ c. setgid_cred c gid) 0 minus_one

unfoldable pub process_setreuid : Kernel → ℕ → ℕ → ℤ × Kernel
process_setreuid k ruid euid = on_current k (λ c. setreuid_cred c ruid euid) (pos 0) neg_one

unfoldable pub process_setregid : Kernel → ℕ → ℕ → ℤ × Kernel
process_setregid k rgid egid = on_current k (λ c. setregid_cred c rgid egid) (pos 0) neg_one

-- 022 and 0777 in octal: `& 0777` is the remainder by 512
unfoldable pub process_set_umask : Kernel → ℕ → ℕ × Kernel
process_set_umask k new_mask =
    let cur = process_current_task k in
    if cur == 0
    then (18, k)
    else let c = (k.tasks cur).cred in
      (c.umask, set_cred k cur (record c { umask = new_mask % 512 }))
