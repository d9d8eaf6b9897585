-- ===== src/Sys/Mmap.antt =====
-- src/sys/syscall.c: `do_sys_brk`, `do_sys_mmap`, `do_sys_munmap` and `do_sys_mprotect`. What the
-- page tables say of a page, and the file of a descriptor, are parameters.
pub mod Apart
use edge_os.Prelude.{
  ℕ, zero, suc, Bool, true, false, ◌+◌, ◌-◌, ◌/◌, ◌%◌, Option, none, some, List, [], ◌∷◌, length,
  replicate, ◌==◌, if◌then◌else◌, ltb, leb, not, ◌&&◌, ◌||◌, min,
}
use edge_os.Prelude.Int.{ℤ, pos}
use edge_os.Task.{UserVma, Space}
use edge_os.Sys.Errno.{fails, eio, ebadf, enomem, efault, einval, enosys}
use edge_os.Sys.User.{
  Memory, wrap64, page_size, user_min_addr, user_max_addr, page_align_up, copy_to_user, is_present,
  is_writable, is_user,
}
use edge_os.Sys.Vma.{
  is_free, user_heap_base_addr, user_vma_record, user_vma_find_topdown_gap, user_vma_remove_range,
}

-- The flags of the entry that maps an address: `user_pte_flags`.
abbrev pub Pages : Type 0
Pages = ℕ → ℕ

-- a mapping between the break and the new break
unfoldable pub brk_meets : ℕ → ℕ → List UserVma → Bool
brk_meets brk req [] = false
brk_meets brk req (v ∷ vs) =
    not (is_free v || (leb v.end brk || leb req v.start)) || brk_meets brk req vs

abbrev pub brk_mapped : Pages → ℕ → Bool
brk_mapped pte req =
    is_present (pte (req - 1)) && (is_user (pte (req - 1)) && is_writable (pte (req - 1)))

-- The result is the break, old or new.
unfoldable pub do_sys_brk : Pages → Space → ℕ → ℕ × Space
do_sys_brk pte t addr =
    let req = page_align_up addr in
    if addr == 0
    then (t.user_brk, t)
    else if ltb req t.user_heap_base || ltb t.user_heap_limit req
    then (t.user_brk, t)
    else if ltb t.user_brk req && brk_meets t.user_brk req t.user_vmas
    then (t.user_brk, t)
    else if ltb t.user_heap_base req && not (brk_mapped pte req)
    then (t.user_brk, t)
    else (req, record t { user_brk = req })

-- `flags & LINUX_MAP_ANON`, `flags & LINUX_MAP_FIXED` and `prot & LINUX_PROT_WRITE`
abbrev pub is_anon : ℕ → Bool
is_anon flags = flags / 0x20 % 2 == 1

abbrev pub is_fixed : ℕ → Bool
is_fixed flags = flags / 0x10 % 2 == 1

abbrev pub wants_write : ℕ → Bool
wants_write prot = prot / 2 % 2 == 1

-- The loop over the pages of a range, `n` of them from `v` on.
unfoldable pub pages_ok : Pages → ℕ → ℕ → ℕ → Bool
pages_ok pte prot v zero = true
pages_ok pte prot v (suc n) =
    (is_present (pte v) && is_user (pte v))
    && (not (wants_write prot && not (is_writable (pte v))) && pages_ok pte prot (v + page_size) n)

-- The lowest address of the arena of `mmap`.
abbrev pub raise : ℕ → ℕ → ℕ
raise low x = if ltb x low then low else x

unfoldable pub mmap_floor : Space → ℕ
mmap_floor t = raise user_heap_base_addr (raise t.user_heap_base (page_align_up t.user_brk))

-- The address of the mapping, or an error number.
pub data Choice : Type 0 where
  refused at : ℕ → Choice

unfoldable pub choose_base : Space → ℕ → ℕ → ℕ → Choice
choose_base t addr need flags =
    let gap = user_vma_find_topdown_gap t.user_vmas (mmap_floor t) t.user_heap_limit need in
    if is_fixed flags
    then (if addr % page_size == 0 then at addr else refused einval)
    else if gap == 0
    then refused enomem
    else at gap

-- What the descriptor of a file mapping is: none or one of another kind; a device, with the address
-- that `vfs_dev_mmap` gives; a file, whose `read` gives bytes, or fails.
pub data Source : Type 0 where
  absent : Source
  device : Option ℕ → Source
  file : (ℕ → ℕ → Option (List ℕ)) → Source

abbrev pub chunk : ℕ → ℕ
chunk n = min n page_size

-- The loop that clears the new pages, `left` bytes from `base` on; the flag says that a copy to
-- user memory failed. Each turn clears a page.
unfoldable pub clear_pages : ℕ → Memory → ℕ → ℕ → Memory × Bool
clear_pages zero m base left = (m, false)
clear_pages (suc fuel) m base left =
    if left == 0 then (m, false) else elim (copy_to_user m base (replicate (chunk left) 0)) [
      | none ↦ (m, true)
      | some m' ↦ clear_pages fuel m' (base + chunk left) (left - chunk left)
    ]

-- The loop that reads the file, `left` bytes from the offset `off`: the memory, and the error
-- number if it failed.
unfoldable pub read_pages : (ℕ → ℕ → Option (List ℕ)) → ℕ → Memory → ℕ → ℕ → ℕ → Memory × Option ℕ
read_pages read zero m base off left = (m, none)
read_pages read (suc fuel) m base off left =
    if left == 0 then (m, none) else elim (read (off % 4294967296) (chunk left)) [
      | none ↦ (m, some eio)
      | some [] ↦ (m, none)
      | some (b ∷ bs) ↦ elim (copy_to_user m base (b ∷ bs)) [
        | none ↦ (m, some efault)
        | some m' ↦
            let n = length (b ∷ bs) in
            elim (ltb n (chunk left)) [
              | true ↦ (m', none)
              | false ↦ read_pages read fuel m' (base + n) (off + n) (left - n)
            ]
      ]
    ]

-- What the new pages hold: the memory, and an error number or the address of a device.
pub data Filled : Type 0 where
  ready : Memory → Filled
  faulted elsewhere : ℕ → Memory → Filled

after_read : Memory × Option ℕ → Filled
after_read (m, none) = ready m
after_read (m, some e) = faulted e m

after_clear : Memory × Bool → Filled
after_clear (m, false) = ready m
after_clear (m, true) = faulted efault m

fill_file : (ℕ → ℕ → Option (List ℕ)) → ℕ → ℕ → ℕ → Memory × Bool → Filled
unfolding after_read
fill_file read base len off (m, true) = faulted efault m
fill_file read base len off (m, false) =
    after_read (read_pages read (len / page_size + 1) m base off len)

unfoldable pub fill_pages : Source → Bool → Memory → ℕ → ℕ → ℕ → ℕ → Filled
unfolding after_clear fill_file
fill_pages source true m base need len off =
    after_clear (clear_pages (need / page_size) m base need)
fill_pages absent false m base need len off = faulted ebadf m
fill_pages (device none) false m base need len off = faulted enosys m
fill_pages (device (some a)) false m base need len off = elsewhere a m
fill_pages (file read) false m base need len off =
    fill_file read base len off (clear_pages (need / page_size) m base need)

pub record Mapped : Type 0 where
  pub result : ℤ
  pub space : Space
  pub memory : Memory

abbrev pub mapped : ℤ → Space → Memory → Mapped
mapped r t m = record { result = r; space = t; memory = m }

pub recorded : ℕ → Space → Memory → Option Space → Mapped
recorded base t m none = mapped (fails enomem) t m
recorded base t m (some t') = mapped (pos base) t' m

-- The last step: the mapping is recorded if it lies in the arena.
unfoldable pub record_mapping : Space → ℕ → ℕ → ℕ → ℕ → Filled → Mapped
unfolding recorded
record_mapping t base need prot flags (faulted e m) = mapped (fails e) t m
record_mapping t base need prot flags (elsewhere a m) = mapped (pos a) t m
record_mapping t base need prot flags (ready m) =
    if leb user_heap_base_addr base && ltb base t.user_heap_limit
    then recorded base t m
        (user_vma_record t base (base + need) (prot % 4294967296) (flags % 4294967296))
    else mapped (pos base) t m

-- The mapping at `base`: what is there goes first, also if the mapping fails then.
unfoldable pub map_at : Pages → Source → Space → Memory → ℕ → ℕ → ℕ → ℕ → ℕ → ℕ → Mapped
map_at pte source t m base need len prot flags off =
    let t' = (user_vma_remove_range t base (base + need)).0 in
    if ltb base user_min_addr
      || (ltb (wrap64 (base + need)) base || ltb user_max_addr (wrap64 (base + need)))
    then mapped (fails enomem) t m
    else if not (pages_ok pte prot base (need / page_size))
    then mapped (fails enomem) t' m
    else record_mapping t' base need prot flags
        (fill_pages source (is_anon flags) m base need len off)

pub map_chosen : Pages → Source → Space → Memory → ℕ → ℕ → ℕ → ℕ → ℕ → Choice → Mapped
map_chosen pte source t m need len prot flags off (refused e) = mapped (fails e) t m
map_chosen pte source t m need len prot flags off (at base) =
    map_at pte source t m base need len prot flags off

-- `fd` is a `uint64_t`; it stands for a negative number from 2 ^ 63 on.
unfoldable pub do_sys_mmap : Pages → Source → Space → Memory → ℕ → ℕ → ℕ → ℕ → ℕ → ℕ → Mapped
unfolding map_chosen
do_sys_mmap pte source t m addr len prot flags fd off =
    let need = page_align_up len in
    if len == 0
    then mapped (fails einval) t m
    else if leb 9223372036854775808 fd && not (is_anon flags)
    then mapped (fails einval) t m
    else if not (is_anon flags) && not (off % page_size == 0)
    then mapped (fails einval) t m
    else if need == 0
    then mapped (fails einval) t m
    else map_chosen pte source t m need len prot flags off (choose_base t addr need flags)

unfoldable pub do_sys_munmap : Space → ℕ → ℕ → ℤ × Space
do_sys_munmap t addr len =
    let need = page_align_up len in
    if len == 0
    then (pos 0, t)
    else if not (addr % page_size == 0)
    then (fails einval, t)
    else if need == 0
    then (fails einval, t)
    else if leb user_heap_base_addr addr && ltb addr t.user_heap_limit
    then (pos 0, (user_vma_remove_range t addr (wrap64 (addr + need))).0)
    else (pos 0, t)

unfoldable pub do_sys_mprotect : Pages → ℕ → ℕ → ℕ → ℤ
do_sys_mprotect pte addr len prot =
    let end = page_align_up (wrap64 (addr + len)) in
    if not (addr % page_size == 0)
    then fails einval
    else if len == 0
    then pos 0
    else if ltb end addr
    then fails einval
    else if pages_ok pte prot addr ((end - addr) / page_size)
    then pos 0
    else fails enomem
