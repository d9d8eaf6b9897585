-- ===== src/Proc/Memory.antt =====
-- src/sys/process.c: the regions of user memory, cleared, copied by a fork, and set up for a new
-- program. The page tables that map them are not modelled: of `task_build_address_space` the
-- model keeps that CR3 is the table of the slot.
use edge_os.Prelude.{ℕ, Bool, false, ◌+◌, ◌-◌, ◌==◌, if◌then◌else◌, ltb, leb, not, ◌&&◌, min}
use edge_os.Prelude.Int.{ℤ, pos, neg_one}
use edge_os.Prelude.Maps.{upd}
use edge_os.Task.{Ptr, pml4_of, Space, Signals, Kernel, Regions, cleared_vmas, put}
use edge_os.Proc.Table.{user_as_max_tasks}
use edge_os.Proc.Cred.{process_current_task}
use edge_os.Proc.Exit.{linux_sig_ign, linux_sig_dfl}

abbrev pub user_stack_base : ℕ
user_stack_base = 0x20200000

abbrev pub user_heap_base_at : ℕ
user_heap_base_at = 0x20400000

abbrev pub user_mmap_base : ℕ
user_mmap_base = 0x30000000

abbrev pub user_region_size : ℕ
user_region_size = 0x200000

abbrev pub user_low_size : ℕ
user_low_size = 0x400000

abbrev pub user_heap_size : ℕ
user_heap_size = 0x2000000

-- `USER_HEAP_DEFAULT_DELTA`
abbrev pub user_heap_default : ℕ
user_heap_default = 0x2000000

abbrev pub user_heap_ext_size : ℕ
user_heap_ext_size = 0x800000

abbrev pub user_bigpie_size : ℕ
user_bigpie_size = 0x1000000

abbrev pub user_stack_top_at : ℕ
user_stack_top_at = user_stack_base + user_region_size

-- `memset` of zeros and `memcpy`, from offset 0, and `memset` between two offsets
abbrev pub zero_below : ℕ → (ℕ → ℕ) → ℕ → ℕ
zero_below n m a = if ltb a n then 0 else m a

abbrev pub copy_below : ℕ → (ℕ → ℕ) → (ℕ → ℕ) → ℕ → ℕ
copy_below n src m a = if ltb a n then src a else m a

abbrev pub zero_between : ℕ → ℕ → (ℕ → ℕ) → ℕ → ℕ
zero_between lo hi m a = if leb lo a && ltb a hi then 0 else m a

-- how many bytes of the heap and of its extension a heap limit covers
unfoldable pub heap_bytes : ℕ → ℕ
heap_bytes limit =
    if ltb user_heap_base_at limit
    then min (limit - user_heap_base_at) user_heap_size
    else user_heap_default

unfoldable pub heap_ext_bytes : ℕ → ℕ
heap_ext_bytes limit =
    if ltb user_heap_base_at limit && ltb user_heap_size (limit - user_heap_base_at)
    then min (limit - user_heap_base_at - user_heap_size) user_heap_ext_size
    else 0

unfoldable pub clear_regions : ℕ → Regions → Regions
clear_regions limit r = record r {
  low = zero_below user_low_size r.low;
  text = zero_below user_region_size r.text;
  stack = zero_below user_region_size r.stack;
  heap = zero_below (heap_bytes limit) r.heap;
  heap_ext = zero_below (heap_ext_bytes limit) r.heap_ext;
}

-- the slot of a task that is in the table
abbrev pub slot_of : Ptr → ℕ
slot_of t = t - 1

abbrev pub in_table : Ptr → Bool
in_table t = not (t == 0) && ltb (slot_of t) user_as_max_tasks

abbrev pub put_regions : Kernel → ℕ → Regions → Kernel
put_regions k i r = record k { regions = upd k.regions i r }

unfoldable pub task_clear_user_regions : Kernel → Ptr → Kernel
task_clear_user_regions k t =
    if in_table t
    then put_regions k (slot_of t)
        (clear_regions (k.tasks t).space.user_heap_limit (k.regions (slot_of t)))
    else k

-- the rest of what a new program must not see
unfoldable pub clear_ext_and_bigpie : Kernel → Ptr → Kernel
clear_ext_and_bigpie k t =
    let r = k.regions (slot_of t) in
    put_regions k (slot_of t) (record r {
      heap_ext = zero_below user_heap_ext_size r.heap_ext;
      bigpie = zero_below user_bigpie_size r.bigpie;
    })

-- what a fork copies from the regions of the parent
unfoldable pub copy_regions : ℕ → Regions → Regions → Regions
copy_regions limit parent child = record child {
  low = copy_below user_low_size parent.low child.low;
  text = copy_below user_region_size parent.text child.text;
  stack = copy_below user_region_size parent.stack child.stack;
  heap =
      zero_between (heap_bytes limit) user_heap_size
        (copy_below (heap_bytes limit) parent.heap child.heap);
  heap_ext =
      zero_between (heap_ext_bytes limit) user_heap_ext_size
        (copy_below (heap_ext_bytes limit) parent.heap_ext child.heap_ext);
}

unfoldable pub set_cr3 : Kernel → Ptr → Kernel
set_cr3 k t = put k t (record (k.tasks t) { cr3 = pml4_of (slot_of t) })

-- the address space of a program that starts
abbrev pub fresh_space : Space
fresh_space = record {
  user_stack_top = user_stack_top_at;
  user_heap_base = user_heap_base_at;
  user_brk = user_heap_base_at;
  user_heap_limit = user_heap_base_at + user_heap_default;
  user_mmap_next = user_mmap_base;
  user_vma_count = 0;
  user_vmas = cleared_vmas;
  fs_base = 0;
}

-- `if (handler != LINUX_SIG_IGN) handler = LINUX_SIG_DFL;`
abbrev pub exec_handler : ℕ → ℕ
exec_handler h = if h == linux_sig_ign then h else linux_sig_dfl

-- SS_DISABLE
abbrev pub ss_disable : ℕ
ss_disable = 2

abbrev pub exec_signals : Signals → Signals
exec_signals s = record s {
  sigint_handler = exec_handler s.sigint_handler;
  sigalrm_handler = exec_handler s.sigalrm_handler;
  sigterm_handler = exec_handler s.sigterm_handler;
  sigchld_handler = exec_handler s.sigchld_handler;
  sigint_pending = false;
  sigalrm_pending = false;
  sigterm_pending = false;
  sigchld_pending = false;
  sig_stub_installed = false;
  sigaltstack_sp = 0;
  sigaltstack_size = 0;
  sigaltstack_flags = ss_disable;
}

unfoldable pub process_prepare_exec_current : Kernel → ℤ × Kernel
process_prepare_exec_current k =
    let cur = process_current_task k in
    let k1 = clear_ext_and_bigpie (task_clear_user_regions k cur) cur in
    let t = k1.tasks cur in
    let k2 = put k1 cur (record t { space = fresh_space; sig = exec_signals t.sig }) in
    if in_table cur then (pos 0, record k2 { fs_base_msr = 0 }) else (neg_one, k)

unfoldable pub process_set_fs_base : Kernel → ℕ → ℤ × Kernel
process_set_fs_base k base =
    let cur = process_current_task k in
    let t = k.tasks cur in
    if cur == 0 then (neg_one, k) else (
      pos 0,
      record (put k cur (record t { space = record t.space { fs_base = base } })) {
        fs_base_msr = base;
      },
    )

unfoldable pub process_get_fs_base : Kernel → ℕ
process_get_fs_base k =
    let cur = process_current_task k in if cur == 0 then 0 else (k.tasks cur).space.fs_base
