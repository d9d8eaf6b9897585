-- ===== src/Proc/Start.antt =====
-- src/sys/process.c: how a process comes to be: at boot, by a fork, and by a spawn.
pub mod Forked
use edge_os.Prelude.{
  ℕ, zero, suc, Bool, true, false, ◌+◌, ◌-◌, ◌/◌, ◌%◌, Option, none, some, List, [], ◌∷◌, ◌==◌,
  if◌then◌else◌, min, take, length, not, ◌||◌,
}
use edge_os.Prelude.Int.{ℤ, pos, negsuc, neg_one, ◌==ℤ◌, to_ℕ}
use edge_os.Task.{
  Ptr, Addr, word, kstack_top_of, fork_tf_of, argv_of, envp_of, boot_cr3, ret_from_fork,
  enter_user_current, unused, blocked, Task, Cred, Signals, TrapFrame, Regions, Start, Kernel, put,
  task_at, zero_task, zero_context, zero_start, zero_signals,
}
use edge_os.Sched.Ops.{
  scheduler_init, scheduler_set_cpu_id, scheduler_set_boot_current, scheduler_task_set_blocked,
  scheduler_task_set_unused, scheduler_task_make_runnable,
}
use edge_os.Proc.Table.{task_alloc}
use edge_os.Proc.Tree.{task_child_link, task_child_unlink}
use edge_os.Proc.Cred.{process_current_task}
use edge_os.Proc.Exit.{process_pick_target_cpu, linux_sig_dfl}
use edge_os.Proc.Session.{ctty_console}
use edge_os.Proc.Memory.{
  slot_of, in_table, put_regions, task_clear_user_regions, clear_ext_and_bigpie, copy_regions,
  set_cr3, fresh_space, ss_disable,
}

-- `/`
abbrev pub slash : ℕ
slash = 47

-- The part of a path behind its last slash, cut to what the name of a task holds.
unfoldable pub after_slash : List ℕ → List ℕ → List ℕ
after_slash name [] = name
after_slash name (c ∷ cs) = if c == slash then after_slash cs cs else after_slash name cs

unfoldable pub task_name_from_path : List ℕ → ℕ → List ℕ
task_name_from_path path out_sz = take (out_sz - 1) (after_slash path path)

-- `TASK_NAME_MAX`
abbrev pub task_name_max : ℕ
task_name_max = 32

-- 022 in octal
abbrev pub root_cred : Cred
root_cred = record { uid = 0; gid = 0; euid = 0; egid = 0; umask = 18 }

-- `strcpy(child->cwd, parent->cwd[0] ? parent->cwd : "/");`
abbrev pub cwd_or_root : List ℕ → List ℕ
cwd_or_root [] = slash ∷ []
cwd_or_root (c ∷ cs) = c ∷ cs

abbrev pub clear_tasks : ℕ → Kernel → Kernel
clear_tasks zero k = k
clear_tasks (suc n) k = put (clear_tasks n k) (task_at n) zero_task

-- "init"
abbrev pub init_name : List ℕ
init_name = 105 ∷ 110 ∷ 105 ∷ 116 ∷ []

-- The table is cleared, the scheduler starts, and the first slot is the process that runs.
unfoldable pub process_init : Kernel → Kernel
process_init k =
    let k0 = record (clear_tasks 64 k) { next_pid = 1 } in
    let k1 = scheduler_set_cpu_id (scheduler_init k0) 0 in
    let init = task_alloc k1 in
    let t : Task = record (k1.tasks init) {
      pid = pos k1.next_pid;
      ppid = pos 0;
      state = unused;
      exit_code = pos 0;
      name = init_name;
      kernel_stack_top = kstack_top_of 0;
      space = fresh_space;
      cred = root_cred;
      pgid = pos k1.next_pid;
      sid = pos k1.next_pid;
      ctty_kind = ctty_console;
      ctty_id = neg_one;
      sig = record (k1.tasks init).sig { sigaltstack_flags = ss_disable };
      cwd = slash ∷ [];
      assigned_cpu = neg_one;
      cr3 = boot_cr3;
    } in
    if init == 0
    then k1
    else scheduler_set_boot_current (record (put k1 init t) { next_pid = k1.next_pid + 1 }) init

-- what a child takes over of the signals of its parent: the handlers and the alternate stack
abbrev pub inherit_handlers : Signals → Signals → Signals
inherit_handlers parent child = record child {
  sigint_handler = parent.sigint_handler;
  sigalrm_handler = parent.sigalrm_handler;
  sigterm_handler = parent.sigterm_handler;
  sigchld_handler = parent.sigchld_handler;
  sigint_pending = false;
  sigalrm_pending = false;
  sigterm_pending = false;
  sigaltstack_sp = parent.sigaltstack_sp;
  sigaltstack_size = parent.sigaltstack_size;
  sigaltstack_flags = parent.sigaltstack_flags;
}

-- `rflags &= ~(1ull << 8)`
abbrev pub clear_bit_8 : ℕ → ℕ
clear_bit_8 r = if (r / 256) % 2 == 1 then r - 256 else r

-- `process_fork`, step by step: the number and the name of the child, its share of the parent,
unfoldable pub fork_begin : Kernel → Ptr → Ptr → Kernel
fork_begin k parent child =
    put (record k { next_pid = k.next_pid + 1 }) child
      (record (k.tasks child) {
        pid = pos k.next_pid;
        ppid = (k.tasks parent).pid;
        state = unused;
        exit_code = pos 0;
        name = (k.tasks parent).name;
      })

unfoldable pub fork_inherit : Kernel → Ptr → Ptr → Kernel
fork_inherit k parent child =
    let p = k.tasks parent in
    put k child (record (k.tasks child) {
      kernel_stack_top = kstack_top_of (slot_of child);
      space = p.space;
      cred = p.cred;
      pgid = p.pgid;
      sid = p.sid;
      ctty_kind = p.ctty_kind;
      ctty_id = p.ctty_id;
      cwd = cwd_or_root p.cwd;
      sig = inherit_handlers p.sig (k.tasks child).sig;
    })

-- its memory,
unfoldable pub fork_memory : Kernel → Ptr → Ptr → Kernel
fork_memory k parent child = put_regions k (slot_of child) (
    copy_regions (k.tasks parent).space.user_heap_limit (k.regions (slot_of parent))
      (k.regions (slot_of child)))

-- and the frame and the context in which it resumes
unfoldable pub fork_resume : Kernel → Ptr → TrapFrame → Kernel
fork_resume k child tf = put k child (record (k.tasks child) {
  fork_tf = record tf { rax = 0; rflags = clear_bit_8 tf.rflags };
  context = record zero_context {
    r12 = fork_tf_of (slot_of child);
    rip = ret_from_fork;
    rsp = (k.tasks child).kernel_stack_top;
    rbp = (k.tasks child).kernel_stack_top;
  };
})

unfoldable pub fork_task : Kernel → Ptr → Ptr → TrapFrame → Kernel
fork_task k parent child tf =
    let k1 = task_clear_user_regions (set_cr3 (fork_begin k parent child) child) child in
    let k2 = task_child_link (fork_inherit k1 parent child) parent child in
    scheduler_task_set_blocked (fork_resume (fork_memory k2 parent child) child tf) child

-- The frame is `none` where the caller gives NULL.
unfoldable pub process_fork : Kernel → Option TrapFrame → ℤ × Kernel
process_fork k none = (neg_one, k)
process_fork k (some tf) =
    let parent = process_current_task k in
    let child = task_alloc k in
    if (parent == 0) || (child == 0)
    then (neg_one, k)
    else if not (in_table child) || not (in_table parent)
    then (neg_one, k)
    else (pos k.next_pid, fork_task k parent child tf)

unfoldable pub process_set_current : Kernel → ℤ → ℤ
process_set_current k pid =
    let cur = process_current_task k in
    if cur == 0 then neg_one else if (k.tasks cur).pid ==ℤ pid then pos 0 else neg_one

-- `edge_elf_image_t`
pub record ElfImage : Type 0 where
  pub entry_rip : ℕ
  pub at_phdr : ℕ
  pub at_phnum : ℕ
  pub at_entry : ℕ
  pub at_base : ℕ

-- The arguments up to the first NULL, at most `n` of them, each cut to 127 characters.
unfoldable pub copy_args : ℕ → List (Option (List ℕ)) → List (List ℕ)
copy_args zero argv = []
copy_args (suc n) [] = []
copy_args (suc n) (none ∷ argv) = []
copy_args (suc n) (some a ∷ argv) = take 127 a ∷ copy_args n argv

-- `if (argc < 0) argc = 0; if (argc > 32) argc = 32;`
abbrev pub clamp_argc : ℤ → ℕ
clamp_argc argc = min (to_ℕ argc) 32

-- the child of a spawn, before it is linked, and after
unfoldable pub spawn_task : Kernel → Ptr → Ptr → Task
spawn_task k parent child =
    let p = k.tasks parent in
    let pid = pos k.next_pid in
    let base : Task = record zero_task {
      pid = pid;
      state = blocked;
      kernel_stack_top = kstack_top_of (slot_of child);
      space = fresh_space;
      assigned_cpu = neg_one;
    } in
    let orphan : Task = record base {
      cred = root_cred;
      pgid = pid;
      sid = pid;
      ctty_kind = ctty_console;
      ctty_id = neg_one;
      cwd = slash ∷ [];
      sig = record zero_signals { sigaltstack_flags = ss_disable };
    } in
    let heir : Task = record base {
      ppid = p.pid;
      cred = p.cred;
      pgid = p.pgid;
      sid = p.sid;
      ctty_kind = p.ctty_kind;
      ctty_id = p.ctty_id;
      cwd = cwd_or_root p.cwd;
      sig = inherit_handlers p.sig zero_signals;
    } in
    if parent == 0 then orphan else heir

unfoldable pub spawn_prepare : Kernel → Ptr → Ptr → List ℕ → ℤ → List (Option (List ℕ)) → Kernel
spawn_prepare k parent child path argc argv =
    let k1 = put (record k { next_pid = k.next_pid + 1 }) child (spawn_task k parent child) in
    let k2 = task_child_link k1 parent child in
    let k3 = put k2 child (record (k2.tasks child) {
      name = task_name_from_path path task_name_max;
      start = zero_start;
    }) in
    let k4 = set_cr3 (clear_ext_and_bigpie (task_clear_user_regions k3 child) child) child in
    let args = copy_args (clamp_argc argc) argv in
    put k4 child (record (k4.tasks child) {
      start = record (k4.tasks child).start { argbuf = args; argc = length args };
    })

-- the loader failed
unfoldable pub spawn_undo : Kernel → Ptr → Kernel
spawn_undo k child =
    put (scheduler_task_set_unused (task_child_unlink k child) child) child zero_task

unfoldable pub spawn_start : Kernel → Ptr → ElfImage → Kernel
spawn_start k child img =
    let t = k.tasks child in
    put k child (record t {
      start = record t.start {
        entry = img.entry_rip;
        argv = argv_of (slot_of child);
        envp = envp_of (slot_of child);
        at_phdr = img.at_phdr;
        at_phnum = img.at_phnum;
        at_entry = img.at_entry;
        at_base = img.at_base;
        pending = true;
      };
      context = record zero_context {
        rsp = t.kernel_stack_top;
        rbp = t.kernel_stack_top;
        rip = enter_user_current;
      };
    })

-- `load` is `elf_loader_exec` of src/loader/elf_loader.c: it fills the regions of the slot whose
-- tables CR3 points to, and gives the image, or fails.
module _ (load : List ℕ → Regions → Regions × Option ElfImage) where
  unfoldable pub process_spawn_exec : Kernel → List ℕ → ℤ → List (Option (List ℕ)) → ℤ × Kernel
  process_spawn_exec k path argc argv =
      let parent = process_current_task k in
      let child = task_alloc k in
      let k1 = spawn_prepare k parent child path argc argv in
      let (r, image) = load path (k1.regions (slot_of child)) in
      let k2 = put_regions k1 (slot_of child) r in
      if child == 0 then (neg_one, k) else elim image [
        | none ↦ (neg_one, spawn_undo k2 child)
        | some img ↦
            let k3 = scheduler_task_set_blocked (spawn_start k2 child img) child in
            (
              (k3.tasks child).pid,
              scheduler_task_make_runnable k3 child (process_pick_target_cpu k3),
            )
      ]
