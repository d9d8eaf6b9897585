-- ===== src/Sys/Mmap/Apart.antt =====
-- src/sys/syscall.c: the mappings of a process under `do_sys_mmap` and `do_sys_munmap`.
use edge_os.Prelude.{
  ℕ, Bool, true, false, ◌+◌, ◌%◌, ◌%◌, ◌/◌, ◌≤◌, ◌<◌, ◌≡◌, refl, sym, ap, inl, inr, Option, none,
  some, set, if◌then◌else◌, ◌==◌, ltb, leb, not, ◌&&◌, ◌||◌, arith, Bool-cases, pick, subst,
}
use edge_os.Prelude.Int.{pos}
use edge_os.Task.{UserVma, Space}
use edge_os.Sys.User.{Memory, wrap64, page_size, user_min_addr, user_max_addr, page_align_up}
use edge_os.Sys.Vma.{
  user_heap_base_addr, user_vma_find_free_slot, user_vma_record, user_vma_recount,
  user_vma_refresh_mmap_hint, user_vma_remove_range, put_slot,
}
use edge_os.Sys.Vma.Ranges.{holds, holders, total-set, found_slot}
use edge_os.Sys.Vma.Remove.{within}
use edge_os.Sys.Vma.Cleared.{
  Apart, Apart-Room, removed, removed_le, removed-within, removed_outside,
}
use edge_os.Sys.Mmap.{
  Pages, Source, Choice, refused, at, Filled, ready, faulted, elsewhere, Mapped, mapped, pages_ok,
  is_anon, fill_pages, choose_base, recorded, map_chosen, record_mapping, map_at, do_sys_mmap,
  do_sys_munmap,
}

-- A new mapping adds its addresses.
put-holders :
    (t : Space) (v : UserVma) (a : ℕ) (o : Option ℕ) (t' : Space)
    → user_vma_find_free_slot t.user_vmas ≡ o
    → put_slot t v o ≡ some t'
    → holders a t'.user_vmas ≡ holders a t.user_vmas + holds a v
unfolding put_slot user_vma_recount user_vma_refresh_mmap_hint holders
put-holders t v a none t' q h = absurd (cc)
put-holders t v a (some slot) t' q h =
    let (u, there, free) = found_slot t.user_vmas slot q in
    let written : t'.user_vmas ≡ set t.user_vmas slot v = ground arith in
    let empty : holds a u ≡ 0 = ground (arith, free) in
    rw written (omega (arith, empty, total-set (holds a) t.user_vmas slot u v there))

record-holders :
    (t : Space) (start end prot flags a : ℕ) (t' : Space)
    → user_vma_record t start end prot flags ≡ some t'
    → holders a t'.user_vmas ≡ holders a t.user_vmas + (if within start end a then 1 else 0)
unfolding user_vma_record
record-holders t start end prot flags a t' h = elim (Bool-cases (leb end start)) [
  | inl e ↦ absurd (ground arith)
  | inr e ↦ put-holders t _ a (user_vma_find_free_slot t.user_vmas) t' refl (rw e at h)
]

-- What is done to the mappings at the end of `do_sys_mmap`: nothing, or the new one is added.
data Added (start end : ℕ) (t : Space) (m : Mapped) : Type 0 where
  same : m.space ≡ t → Added start end t m
  added :
      ((a : ℕ)
        → holders a m.space.user_vmas
          ≡ holders a t.user_vmas + (if within start end a then 1 else 0))
      → Added start end t m

recorded-Added :
    (t : Space) (base need prot flags : ℕ) (m : Memory) (o : Option Space)
    → user_vma_record t base (base + need) prot flags ≡ o
    → Added base (base + need) t (recorded base t m o)
unfolding recorded
recorded-Added t base need prot flags m none h = same refl
recorded-Added t base need prot flags m (some t') h =
    added (λ a. record-holders t base (base + need) prot flags a t' h)

record_mapping-Added :
    (t : Space) (base need prot flags : ℕ) (f : Filled)
    → Added base (base + need) t (record_mapping t base need prot flags f)
unfolding record_mapping
record_mapping-Added t base need prot flags (faulted e m) = same refl
record_mapping-Added t base need prot flags (elsewhere a m) = same refl
record_mapping-Added t base need prot flags (ready m) =
    pick (Added base (base + need) t) _
      (recorded base t m
        (user_vma_record t base (base + need) (prot % 4294967296) (flags % 4294967296)))
      (mapped (pos base) t m)
      (λ h. recorded-Added t base need (prot % 4294967296) (flags % 4294967296) m _ refl)
      (λ h. same refl)

abbrev unit_if : Bool → ℕ
unit_if b = if b then 1 else 0

removed-Apart : (t : Space) (s e : ℕ) → Apart t.user_vmas → Apart (removed t s e)
removed-Apart t s e apart = record { once = λ a. omega (arith, removed_le t s e a, apart.once a) }

new_slot-Apart :
    (t : Space) (base end : ℕ) (m : Mapped)
    → Apart t.user_vmas
    → Added base end (user_vma_remove_range t base end).0 m
    → Apart m.space.user_vmas
new_slot-Apart t base end m apart (same e) =
    subst (λ (x : Space). Apart x.user_vmas) (sym e) (removed-Apart t base end apart)
new_slot-Apart t base end m apart (added f) = record {
  once = λ a. elim (Bool-cases (within base end a)) [
    | inl i ↦ omega (arith, f a, ap unit_if i, removed-within t base end a i)
    | inr o ↦ omega (arith, f a, ap unit_if o, removed_le t base end a, apart.once a)
  ];
}

-- The mappings after a refused call, or after the last step of the others.
abbrev After : Mapped → Type 0
After r = Apart r.space.user_vmas

map_at-Apart :
    (pte : Pages) (source : Source) (t : Space) (m : Memory) (base need len prot flags off : ℕ)
    → Apart t.user_vmas
    → After (map_at pte source t m base need len prot flags off)
unfolding map_at
map_at-Apart pte source t m base need len prot flags off apart =
    let out_of_range =
      ltb base user_min_addr
      || (ltb (wrap64 (base + need)) base || ltb user_max_addr (wrap64 (base + need))) in
    let t' = (user_vma_remove_range t base (base + need)).0 in
    elim (Bool-cases out_of_range) [
      | inl h ↦ rw h apart
      | inr h ↦ rw h (elim (Bool-cases (pages_ok pte prot base (need / page_size))) [
        | inl q ↦ rw q (
            new_slot-Apart t base (base + need) _ apart (
              record_mapping-Added t' base need prot flags
                (fill_pages source (is_anon flags) m base need len off)))
        | inr q ↦ rw q (removed-Apart t base (base + need) apart)
      ])
    ]

map_chosen-Apart :
    (pte : Pages) (source : Source) (t : Space) (m : Memory) (need len prot flags off : ℕ)
    → (c : Choice) → Apart t.user_vmas
    → After (map_chosen pte source t m need len prot flags off c)
unfolding map_chosen
map_chosen-Apart pte source t m need len prot flags off (refused e) apart = apart
map_chosen-Apart pte source t m need len prot flags off (at base) apart =
    map_at-Apart pte source t m base need len prot flags off apart

-- If no address is in two mappings of a process, then none is after `mmap`, whether it maps
-- something or fails.
pub do_sys_mmap-Apart :
    (pte : Pages) (source : Source) (t : Space) (m : Memory) (addr len prot flags fd off : ℕ)
    → Apart t.user_vmas
    → Apart (do_sys_mmap pte source t m addr len prot flags fd off).space.user_vmas
unfolding do_sys_mmap
do_sys_mmap-Apart pte source t m addr len prot flags fd off apart = elim (Bool-cases (len == 0)) [
  | inl h ↦ rw h apart
  | inr h ↦ rw h (elim (Bool-cases (leb 9223372036854775808 fd && not (is_anon flags))) [
    | inl h ↦ rw h apart
    | inr h ↦ rw h (elim (Bool-cases (not (is_anon flags) && not (off % page_size == 0))) [
      | inl h ↦ rw h apart
      | inr h ↦ rw h (elim (Bool-cases (page_align_up len == 0)) [
        | inl h ↦ rw h apart
        | inr h ↦ rw h (
            map_chosen-Apart pte source t m (page_align_up len) len prot flags off
              (choose_base t addr (page_align_up len) flags) apart)
      ])
    ])
  ])
]

aligned_bounds :
    (len : ℕ)
    → 0 < len
    → len ≤ user_max_addr
    → (0 < page_align_up len) × (page_align_up len < len + page_size)
unfolding page_align_up
aligned_bounds len n top = (omega arith, omega arith)

-- `munmap` of a range in the arena, where no address is in two mappings and a slot is free, takes
-- away exactly the range: none of its addresses is in a mapping afterwards, and an address outside
-- is in as many as before.
pub do_sys_munmap-exact :
    (t : Space) (addr len slot a : ℕ)
    → Apart t.user_vmas
    → user_vma_find_free_slot t.user_vmas ≡ some slot
    → addr % page_size ≡ 0
    → user_heap_base_addr ≤ addr
    → addr < t.user_heap_limit
    → 0 < len
    → addr + len ≤ user_max_addr
    → ((do_sys_munmap t addr len).0 ≡ pos 0)
      × (holders a (do_sys_munmap t addr len).1.user_vmas
          ≡ (if within addr (addr + page_align_up len) a then 0 else holders a t.user_vmas))
unfolding do_sys_munmap
do_sys_munmap-exact t addr len slot a apart free at_page low high n top =
    let need = page_align_up len in
    let (positive, short) = aligned_bounds len n (omega arith) in
    let some_len : (len == 0) ≡ false = ground arith in
    let whole : not (addr % page_size == 0) ≡ false = ground (arith, at_page) in
    let some_need : (need == 0) ≡ false = ground (arith, positive) in
    let inside : (leb user_heap_base_addr addr && ltb addr t.user_heap_limit) ≡ true =
      ground (arith, low, high) in
    let no_wrap : wrap64 (addr + need) ≡ addr + need = omega (arith, short) in
    rw (some_len, whole, some_need, inside, no_wrap)
      (
        refl,
        pick (λ (n : ℕ). holders a (removed t addr (addr + need)) ≡ n) _ 0 (holders a t.user_vmas)
            (λ i. removed-within t addr (addr + need) a i)
            (λ o.
              removed_outside t addr (addr + need) a
                (Apart-Room t.user_vmas addr (addr + need) slot (omega (arith, positive)) apart
                  free)
                o),
      )
