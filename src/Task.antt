-- ===== src/Task.antt =====
-- include/sys/process.h and include/sys/scheduler.h: the task structure, the CPU structure, and
-- the kernel's memory that src/sys/process.c and src/sys/scheduler.c share. A `task_t *` is a
-- number: 0 is NULL, `1 + i` is `&g_tasks[i]`, and `65 + i` is `&g_idle_tasks[i]`.
use edge_os.Prelude.{ℕ, Bool, false, List, [], ◌+◌, replicate}
use edge_os.Prelude.Int.{ℤ, pos}
use edge_os.Prelude.Maps.{upd}

abbrev pub Ptr : Type 0
Ptr = ℕ

abbrev pub null : Ptr
null = 0

abbrev pub proc_max_tasks : ℕ
proc_max_tasks = 64

abbrev pub sched_max_cpus : ℕ
sched_max_cpus = 8

-- `&g_tasks[i]` and `&g_idle_tasks[i]`
abbrev pub task_at : ℕ → Ptr
task_at i = 1 + i

abbrev pub idle_at : ℕ → Ptr
idle_at i = 65 + i

pub data TaskState : Type 0 where
  unused runnable running blocked zombie : TaskState

-- An address that the linker or the boot code chose, by its name; `word` is any other number.
pub data Addr : Type 0 where
  word pml4_of kstack_top_of idle_stack_top_of fork_tf_of argv_of envp_of : ℕ → Addr
  boot_cr3 ret_from_fork enter_user_current idle_loop : Addr

-- `cpu_context_t`
pub record Context : Type 0 where
  pub r15 : ℕ
  pub r14 : ℕ
  pub r13 : ℕ
  pub r12 : Addr
  pub rbx : ℕ
  pub rbp : Addr
  pub rip : Addr
  pub rsp : Addr

-- `edge_trap_frame_t`
pub record TrapFrame : Type 0 where
  pub rax : ℕ
  pub rbx : ℕ
  pub rcx : ℕ
  pub rdx : ℕ
  pub rbp : ℕ
  pub rdi : ℕ
  pub rsi : ℕ
  pub r8_to_r15 : List ℕ
  pub int_no : ℕ
  pub err_code : ℕ
  pub rip : ℕ
  pub cs : ℕ
  pub rflags : ℕ
  pub rsp : ℕ
  pub ss : ℕ

-- `edge_user_vma_t`
pub record UserVma : Type 0 where
  pub start : ℕ
  pub end : ℕ
  pub prot : ℕ
  pub flags : ℕ

abbrev pub process_user_vma_max : ℕ
process_user_vma_max = 256

-- a free slot of the array of mappings, and the array with all slots free
abbrev pub no_vma : UserVma
no_vma = record { start = 0; end = 0; prot = 0; flags = 0 }

unfoldable pub cleared_vmas : List UserVma
cleared_vmas = replicate process_user_vma_max no_vma

-- The fields of `task_t`, the related ones together.
pub record Cred : Type 0 where
  pub uid : ℕ
  pub gid : ℕ
  pub euid : ℕ
  pub egid : ℕ
  pub umask : ℕ

pub record Signals : Type 0 where
  pub sigint_handler : ℕ
  pub sigalrm_handler : ℕ
  pub sigterm_handler : ℕ
  pub sigchld_handler : ℕ
  pub sigmask : ℕ
  pub sigint_pending : Bool
  pub sigalrm_pending : Bool
  pub sigterm_pending : Bool
  pub sigchld_pending : Bool
  pub sig_stub_installed : Bool
  pub sigaltstack_sp : ℕ
  pub sigaltstack_size : ℕ
  pub sigaltstack_flags : ℕ

pub record Itimer : Type 0 where
  pub next_us : ℕ
  pub interval_us : ℕ
  pub active : Bool

-- the user address space: break, the array of mappings, FS base
pub record Space : Type 0 where
  pub user_stack_top : ℕ
  pub user_heap_base : ℕ
  pub user_brk : ℕ
  pub user_heap_limit : ℕ
  pub user_mmap_next : ℕ
  pub user_vma_count : ℕ
  pub user_vmas : List UserVma
  pub fs_base : ℕ

pub record Start : Type 0 where
  pub entry : ℕ
  pub argv : Addr
  pub envp : Addr
  pub at_phdr : ℕ
  pub at_phnum : ℕ
  pub at_entry : ℕ
  pub at_base : ℕ
  pub argc : ℕ
  pub envc : ℕ
  pub pending : Bool
  pub argbuf : List (List ℕ)

pub record Task : Type 0 where
  pub pid : ℤ
  pub ppid : ℤ
  pub exit_code : ℤ
  pub state : TaskState
  pub name : List ℕ
  pub context : Context
  pub fork_tf : TrapFrame
  pub cr3 : Addr
  pub kernel_stack_top : Addr
  pub space : Space
  pub start : Start
  pub cred : Cred
  pub pgid : ℤ
  pub sid : ℤ
  pub ctty_kind : ℕ
  pub ctty_id : ℤ
  pub cwd : List ℕ
  pub root : List ℕ
  pub sig : Signals
  pub itimer : Itimer
  pub need_resched : Bool
  pub on_runqueue : Bool
  pub is_idle : Bool
  pub assigned_cpu : ℤ
  pub rq_prev : Ptr
  pub rq_next : Ptr
  pub parent : Ptr
  pub first_child : Ptr
  pub sibling_prev : Ptr
  pub sibling_next : Ptr

-- `memset(t, 0, sizeof(*t))`
abbrev pub zero_signals : Signals
zero_signals = record {
  sigint_handler = 0;
  sigalrm_handler = 0;
  sigterm_handler = 0;
  sigchld_handler = 0;
  sigmask = 0;
  sigint_pending = false;
  sigalrm_pending = false;
  sigterm_pending = false;
  sigchld_pending = false;
  sig_stub_installed = false;
  sigaltstack_sp = 0;
  sigaltstack_size = 0;
  sigaltstack_flags = 0;
}

abbrev pub zero_space : Space
zero_space = record {
  user_stack_top = 0;
  user_heap_base = 0;
  user_brk = 0;
  user_heap_limit = 0;
  user_mmap_next = 0;
  user_vma_count = 0;
  user_vmas = cleared_vmas;
  fs_base = 0;
}

abbrev pub zero_start : Start
zero_start = record {
  entry = 0;
  argv = word 0;
  envp = word 0;
  at_phdr = 0;
  at_phnum = 0;
  at_entry = 0;
  at_base = 0;
  argc = 0;
  envc = 0;
  pending = false;
  argbuf = [];
}

abbrev pub zero_context : Context
zero_context = record {
  r15 = 0;
  r14 = 0;
  r13 = 0;
  r12 = word 0;
  rbx = 0;
  rbp = word 0;
  rip = word 0;
  rsp = word 0;
}

abbrev pub zero_frame : TrapFrame
zero_frame = record {
  rax = 0;
  rbx = 0;
  rcx = 0;
  rdx = 0;
  rbp = 0;
  rdi = 0;
  rsi = 0;
  r8_to_r15 = [];
  int_no = 0;
  err_code = 0;
  rip = 0;
  cs = 0;
  rflags = 0;
  rsp = 0;
  ss = 0;
}

abbrev pub zero_task : Task
zero_task = record {
  pid = pos 0;
  ppid = pos 0;
  exit_code = pos 0;
  state = unused;
  name = [];
  context = zero_context;
  fork_tf = zero_frame;
  cr3 = word 0;
  kernel_stack_top = word 0;
  space = zero_space;
  start = zero_start;
  cred = record { uid = 0; gid = 0; euid = 0; egid = 0; umask = 0 };
  pgid = pos 0;
  sid = pos 0;
  ctty_kind = 0;
  ctty_id = pos 0;
  cwd = [];
  root = [];
  sig = zero_signals;
  itimer = record { next_us = 0; interval_us = 0; active = false };
  need_resched = false;
  on_runqueue = false;
  is_idle = false;
  assigned_cpu = pos 0;
  rq_prev = 0;
  rq_next = 0;
  parent = 0;
  first_child = 0;
  sibling_prev = 0;
  sibling_next = 0;
}

-- `scheduler_cpu_t`; the lock is not state of a model in which a locked section is one step
pub record Cpu : Type 0 where
  pub current : Ptr
  pub idle : Ptr
  pub rq_head : Ptr
  pub rq_tail : Ptr
  pub logical_id : ℕ

-- The static regions of user memory of one slot, byte by byte.
pub record Regions : Type 0 where
  pub low : ℕ → ℕ
  pub text : ℕ → ℕ
  pub stack : ℕ → ℕ
  pub heap : ℕ → ℕ
  pub heap_ext : ℕ → ℕ
  pub bigpie : ℕ → ℕ

pub record Kernel : Type 0 where
  pub tasks : Ptr → Task
  pub cpus : ℕ → Cpu
  pub local_cpu_id : ℕ
  pub ready : Bool
  pub total_ticks : ℕ
  pub idle_ticks : ℕ
  pub next_pid : ℕ
  pub regions : ℕ → Regions
  pub fs_base_msr : ℕ
  -- the pids that `syscall_release_process_fds` was called for, the latest first
  pub released : List ℤ

-- a write through a `task_t *`, and through a `scheduler_cpu_t *`
abbrev pub put : Kernel → Ptr → Task → Kernel
put k p t = record k { tasks = upd k.tasks p t }

abbrev pub put_cpu : Kernel → ℕ → Cpu → Kernel
put_cpu k c v = record k { cpus = upd k.cpus c v }
