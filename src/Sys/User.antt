-- ===== src/Sys/User.antt =====
-- src/sys/syscall.c: the check of a range of user addresses, the copies to and from user memory,
-- and the walk of the page tables. User memory is a function from addresses to bytes, and what the
-- kernel reads is a list of bytes.
use edge_os.Prelude.{
  ℕ, zero, suc, Bool, true, false, ◌+◌, ◌-◌, ◌*◌, ◌/◌, ◌%◌, Option, none, some, List, [], ◌∷◌,
  length, ◌==◌, if◌then◌else◌, ltb, leb, not,
}
use edge_os.Prelude.Maps.{upd}

abbrev pub Memory : Type 0
Memory = ℕ → ℕ

-- `uint64_t`
abbrev pub wrap64 : ℕ → ℕ
wrap64 n = n % 18446744073709551616

abbrev pub user_min_addr : ℕ
user_min_addr = 0x1000

abbrev pub user_max_addr : ℕ
user_max_addr = 0x40000000

abbrev pub page_size : ℕ
page_size = 4096

-- `x & ~(PAGE_SIZE - 1)`
abbrev pub page_down : ℕ → ℕ
page_down x = x - x % page_size

unfoldable pub page_align_up : ℕ → ℕ
page_align_up v = page_down (wrap64 (v + page_size - 1))

unfoldable pub user_range_ok : ℕ → ℕ → Bool
user_range_ok addr len =
    if ltb addr user_min_addr
    then false
    else if leb user_max_addr addr
    then false
    else if len == 0
    then true
    else if ltb (wrap64 (addr + len)) addr
    then false
    else not (ltb user_max_addr (wrap64 (addr + len)))

-- `memcpy` from and to user memory
unfoldable pub read_bytes : Memory → ℕ → ℕ → List ℕ
read_bytes m a zero = []
read_bytes m a (suc n) = m a ∷ read_bytes m (a + 1) n

unfoldable pub write_bytes : Memory → ℕ → List ℕ → Memory
write_bytes m a [] = m
write_bytes m a (b ∷ bs) = write_bytes (upd m a b) (a + 1) bs

-- a number of `n` bytes, the lowest first
unfoldable pub le : ℕ → List ℕ → ℕ
le zero bs = 0
le (suc n) [] = 0
le (suc n) (b ∷ bs) = b + 256 * le n bs

-- a word of 8 bytes in memory
abbrev pub word_at : Memory → ℕ → ℕ
word_at m a = le 8 (read_bytes m a 8)

-- the bytes of a word
abbrev pub bytes_of : ℕ → List ℕ
bytes_of v =
    v % 256
    ∷ v / 256 % 256
    ∷ v / 65536 % 256
    ∷ v / 16777216 % 256
    ∷ v / 4294967296 % 256
    ∷ v / 1099511627776 % 256
    ∷ v / 281474976710656 % 256
    ∷ v / 72057594037927936 % 256
    ∷ []

-- `none` is the result -1.
unfoldable pub copy_from_user : Memory → ℕ → ℕ → Option (List ℕ)
copy_from_user m src len = if user_range_ok src len then some (read_bytes m src len) else none

unfoldable pub copy_to_user : Memory → ℕ → List ℕ → Option Memory
copy_to_user m dst bs = if user_range_ok dst (length bs) then some (write_bytes m dst bs) else none

-- `memcpy` of one character gave `got`; `rest` is what the loop copies after it.
put_char : Option (List ℕ) → Option (List ℕ) → Option (List ℕ)
put_char none rest = none
put_char (some []) rest = none
put_char (some (c ∷ cs)) none = if c == 0 then some [] else none
put_char (some (c ∷ cs)) (some s) = if c == 0 then some [] else some (c ∷ s)

-- The loop of `copy_user_cstr`, with `n` characters left.
unfoldable pub copy_chars : Memory → ℕ → ℕ → Option (List ℕ)
unfolding put_char
copy_chars m zero src = none
copy_chars m (suc n) src = put_char (copy_from_user m src 1) (copy_chars m n (wrap64 (src + 1)))

-- The string up to its NUL; a text that does not fit is refused.
unfoldable pub copy_user_cstr : Memory → ℕ → ℕ → Option (List ℕ)
copy_user_cstr m dst_sz src =
    if leb dst_sz 1 then none else if src == 0 then some [] else copy_chars m (dst_sz - 1) src

-- `x & PTE_PRESENT`, `& PTE_WRITE`, `& PTE_USER` and `& PTE_PS`
abbrev pub is_present : ℕ → Bool
is_present e = e % 2 == 1

abbrev pub is_writable : ℕ → Bool
is_writable e = e / 2 % 2 == 1

abbrev pub is_user : ℕ → Bool
is_user e = e / 4 % 2 == 1

abbrev pub is_large : ℕ → Bool
is_large e = e / 128 % 2 == 1

-- the entry for `va` of the table that an entry or CR3 points to; `shift` is the size of what one
-- entry maps. `words` is physical memory, by words of 8 bytes.
abbrev pub entry_of : Memory → ℕ → ℕ → ℕ → ℕ
entry_of words table va size = words (page_down table / 8 + va / size % 512)

-- the flags of the entry that maps `va`, or 0
unfoldable pub user_pte_flags : Memory → ℕ → ℕ → ℕ
user_pte_flags words cr3 va =
    let pml4e = entry_of words cr3 va 0x8000000000 in
    let pdpte = entry_of words pml4e va 0x40000000 in
    let pde = entry_of words pdpte va 0x200000 in
    let pte = entry_of words pde va 0x1000 in
    if not (is_present pml4e)
    then 0
    else if not (is_present pdpte)
    then 0
    else if is_large pdpte
    then pdpte % page_size
    else if not (is_present pde)
    then 0
    else if is_large pde
    then pde % page_size
    else if is_present pte
    then pte % page_size
    else 0
