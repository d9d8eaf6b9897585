-- ===== src/Sys/Vma.antt =====
-- src/sys/syscall.c: the mappings of a process. A slot of the array whose end is not above its
-- start is free.
pub mod Ranges
pub mod Gap
pub mod Remove
pub mod Cleared
use edge_os.Prelude.{
  ℕ, zero, suc, Bool, true, false, ◌+◌, ◌-◌, ◌%◌, Option, none, some, List, [], ◌∷◌, get_elem?, set,
  length, ◌==◌, if◌then◌else◌, ltb, leb, not, ◌&&◌, ◌||◌,
}
use edge_os.Prelude.Int.{ℤ, pos, neg_one}
use edge_os.Task.{UserVma, Space, no_vma}
use edge_os.Sys.User.{wrap64, page_down}

abbrev pub user_heap_base_addr : ℕ
user_heap_base_addr = 0x20400000

abbrev pub is_free : UserVma → Bool
is_free v = leb v.end v.start

-- The first free slot, or -1.
unfoldable pub user_vma_find_free_slot : List UserVma → Option ℕ
user_vma_find_free_slot [] = none
user_vma_find_free_slot (v ∷ vs) =
    if is_free v
    then some 0
    else elim (user_vma_find_free_slot vs) [ none ↦ none | some i ↦ some (suc i) ]

unfoldable pub count_used : List UserVma → ℕ
count_used [] = 0
count_used (v ∷ vs) = count_used vs + (if is_free v then 0 else 1)

unfoldable pub user_vma_recount : Space → Space
user_vma_recount t = record t { user_vma_count = count_used t.user_vmas % 65536 }

-- The lowest start of a mapping in the arena, from the hint on.
unfoldable pub lowest_start : ℕ → ℕ → List UserVma → ℕ
lowest_start limit hint [] = hint
lowest_start limit hint (v ∷ vs) =
    lowest_start limit
      (if is_free v || (ltb v.start user_heap_base_addr || (leb limit v.start || leb hint v.start))
        then hint
        else v.start)
      vs

unfoldable pub user_vma_refresh_mmap_hint : Space → Space
user_vma_refresh_mmap_hint t = record t {
  user_mmap_next = lowest_start t.user_heap_limit t.user_heap_limit t.user_vmas;
}

abbrev pub put_vma : Space → ℕ → UserVma → Space
put_vma t i v = record t { user_vmas = set t.user_vmas i v }

unfoldable pub put_slot : Space → UserVma → Option ℕ → Option Space
put_slot t v none = none
put_slot t v (some slot) = some (user_vma_refresh_mmap_hint (user_vma_recount (put_vma t slot v)))

-- The result `none` is -1.
unfoldable pub user_vma_record : Space → ℕ → ℕ → ℕ → ℕ → Option Space
user_vma_record t start end prot flags =
    let v : UserVma = record { start = start; end = end; prot = prot; flags = flags } in
    if leb end start then none else put_slot t v (user_vma_find_free_slot t.user_vmas)

-- The inner loop of the search: is there a mapping that meets `base` to `end`, and the lowest start
-- of those that do.
unfoldable pub scan_overlap : ℕ → ℕ → ℕ → ℕ → Bool → ℕ → List UserVma → Bool × ℕ
scan_overlap floor top base end overlap next [] = (overlap, next)
scan_overlap floor top base end overlap next (v ∷ vs) =
    let skip =
      is_free v || ((leb v.end floor || leb top v.start) || (leb end v.start || leb v.end base)) in
    scan_overlap floor top base end (if skip then overlap else true)
      (if skip then next else if ltb v.start next then v.start else next) vs

-- `(cursor - need) & ~(PAGE_SIZE - 1)`, but not below the floor
abbrev pub gap_base : ℕ → ℕ → ℕ → ℕ
gap_base floor cursor need =
    if ltb (page_down (cursor - need)) floor then floor else page_down (cursor - need)

-- The outer loop, with `iter` turns left; the result 0 says that there is no room.
unfoldable pub topdown_gap : ℕ → List UserVma → ℕ → ℕ → ℕ → ℕ → ℕ
topdown_gap zero vmas floor top need cursor = 0
topdown_gap (suc iter) vmas floor top need cursor =
    let base = gap_base floor cursor need in
    let end = wrap64 (base + need) in
    let found = scan_overlap floor top base end false cursor vmas in
    let lower = topdown_gap iter vmas floor top need found.1 in
    if leb cursor floor || ltb (cursor - floor) need
    then 0
    else if ltb top end || ltb end base
    then 0
    else if not found.0
    then base
    else if leb cursor found.1
    then 0
    else lower

unfoldable pub user_vma_find_topdown_gap : List UserVma → ℕ → ℕ → ℕ → ℕ
user_vma_find_topdown_gap vmas floor top need =
    if need == 0
    then 0
    else if leb top floor || ltb (top - floor) need
    then 0
    else topdown_gap 260 vmas floor top need top

-- The upper half of a mapping that is split, in a free slot if there is one.
unfoldable pub split_upper : ℕ → UserVma → List UserVma → List UserVma
split_upper end v vmas = elim (user_vma_find_free_slot vmas) [
  | none ↦ vmas
  | some slot ↦ set vmas slot (record v { start = end })
]

-- One turn of the loop of `user_vma_remove_range`, for the mapping `v` of the slot `i` that meets
-- the range.
unfoldable pub cut_slot : ℕ → ℕ → ℕ → UserVma → List UserVma → List UserVma
cut_slot start end i v vmas =
    if leb start v.start && leb v.end end
    then set vmas i no_vma
    else if leb start v.start
    then set vmas i (record v { start = end })
    else if leb v.end end
    then set vmas i (record v { end = start })
    else set (split_upper end v vmas) i (record v { end = start })

abbrev pub misses : ℕ → ℕ → UserVma → Bool
misses start end v = is_free v || (leb end v.start || leb v.end start)

unfoldable pub cut_turn : ℕ → ℕ → ℕ → List UserVma → List UserVma
cut_turn start end i vmas = elim (get_elem? vmas i) [
  | none ↦ vmas
  | some v ↦ if misses start end v then vmas else cut_slot start end i v vmas
]

-- The loop from the slot `i` on, with `n` slots left.
unfoldable pub cut_from : ℕ → ℕ → ℕ → ℕ → List UserVma → List UserVma
cut_from start end i zero vmas = vmas
cut_from start end i (suc n) vmas = cut_from start end (i + 1) n (cut_turn start end i vmas)

-- whether the turn for the slot `i` sets `changed`, and whether some turn of the loop does
abbrev pub turn_changes : ℕ → ℕ → ℕ → List UserVma → Bool
turn_changes start end i vmas = elim (get_elem? vmas i) [
  | none ↦ false
  | some v ↦ not (misses start end v)
]

unfoldable pub cut_changes : ℕ → ℕ → ℕ → ℕ → List UserVma → Bool
cut_changes start end i zero vmas = false
cut_changes start end i (suc n) vmas =
    turn_changes start end i vmas || cut_changes start end (i + 1) n (cut_turn start end i vmas)

-- The result says whether the array was changed.
unfoldable pub user_vma_remove_range : Space → ℕ → ℕ → Space × Bool
user_vma_remove_range t start end =
    let n = length t.user_vmas in
    let after = record t { user_vmas = cut_from start end 0 n t.user_vmas } in
    if leb end start
    then (t, false)
    else if cut_changes start end 0 n t.user_vmas
    then (user_vma_refresh_mmap_hint (user_vma_recount after), true)
    else (after, false)
