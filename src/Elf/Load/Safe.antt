-- ===== src/Elf/Load/Safe.antt =====
-- src/elf/elf_loader.c: the loader writes to the user range only.
use edge_os.Prelude.{
  ℕ, zero, suc, Bool, true, false, ◌+◌, ◌-◌, ◌%◌, ◌≤◌, ◌<◌, ◌≡◌, refl, sym, ◌⊎◌, inl, inr, Option,
  none, some, List, [], ◌∷◌, length-take, length-replicate, take, replicate, get_or, ◌==◌,
  if◌then◌else◌, ltb, ◌||◌, arith, Bool-cases, Option-cases, subst,
}
use edge_os.Sys.User.{Memory, wrap64}
use edge_os.Elf.{
  Ehdr, Phdr, phdr_of, pt_load, user_addr_range_ok, user_addr_min, user_addr_max, File,
  vfs_pread_exact, ehdr_of, phdrs_of,
}
use edge_os.Elf.Reloc.{
  Relocated, done, refused, reading, edge_load_relative_relocs, memory_of, Outside, Outside-refl,
  Outside-trans, write-Outside, range-fits, relocs-Outside,
}
use edge_os.Elf.Load.{
  Loaded, Result, loaded, error, unfinished, piece, copy_segment, after_copy, segment_bad,
  load_segment, then_load, load_segments, load_bias_of, scan_headers, phdr_in_segment, finish,
  after_relocs, after_segments, place, with_phdrs, ehdr_bad, with_ehdr, load_file, FileSystem,
  edge_load_elf_from_vfs, edge_main_et_dyn_base, edge_interp_et_dyn_base, Exec, image, failed,
  running, with_interp, until_nul, start_interp, with_main, elf_loader_exec,
}

-- the memory with which a load, and the whole call, ends
unfoldable pub left_by : Result → Memory
left_by (loaded l m) = m
left_by (error m) = m
left_by (unfinished m) = m

unfoldable pub exec_memory : Exec → Memory
exec_memory (image i m) = m
exec_memory (failed m) = m
exec_memory (running m) = m

copy-step : (foff left : ℕ) → (piece foff left ≤ left)
copy-step foff left = ground arith

copy_segment-Outside :
    (fuel : ℕ) (f : File) (foff dst left : ℕ) (m : Memory)
    → user_addr_min ≤ dst
    → dst + left ≤ user_addr_max
    → Outside m (copy_segment fuel f foff dst left m).0
unfolding copy_segment
copy_segment-Outside zero f foff dst left m lo hi = Outside-refl m
copy_segment-Outside (suc fuel) f foff dst left m lo hi = elim (Bool-cases (left == 0)) [
  | inl q ↦ rw q (Outside-refl m)
  | inr q ↦ elim (Option-cases (vfs_pread_exact f (foff % 4294967296) (piece foff left))) [
    | inl e ↦ rw (q, e) (Outside-refl m)
    | inr (bs, e) ↦
        let short = length-take (piece foff left) bs in
        let fits = copy-step foff left in
        rw (q, e)
          (Outside-trans m _ _
            (write-Outside (take (piece foff left) bs) m dst lo (omega (arith, short, fits)))
            (copy_segment-Outside fuel f _ (dst + piece foff left) (left - piece foff left) _
              (omega arith) (omega (arith, fits))))
  ]
]

-- the sizes of program headers are numbers of 64 bits
abbrev pub SmallSizes : List Phdr → Type 0
SmallSizes [] = Unit
SmallSizes (p ∷ ps) = (p.p_memsz < 18446744073709551616) × SmallSizes ps

pub phdrs-SmallSizes : (n : ℕ) (bs : List ℕ) → SmallSizes (phdrs_of n bs)
unfolding phdrs_of
phdrs-SmallSizes zero bs = tt
phdrs-SmallSizes (suc n) bs = (unfold phdr_of in omega arith, phdrs-SmallSizes n _)

after_copy-Outside :
    (p : Phdr) (dst : ℕ) (m : Memory) (r : Memory × Bool)
    → user_addr_min ≤ dst
    → dst + p.p_memsz ≤ user_addr_max
    → Outside m r.0
    → Outside m (after_copy p dst r).0
unfolding after_copy
after_copy-Outside p dst m (m', true) lo hi o = o
after_copy-Outside p dst m (m', false) lo hi o = elim (Bool-cases (ltb p.p_filesz p.p_memsz)) [
  | inl q ↦
      let len = length-replicate {A = ℕ} (p.p_memsz - p.p_filesz) 0 in
      let less : p.p_filesz < p.p_memsz = ground arith in
      rw q (
        Outside-trans m m' _ o (
          write-Outside (replicate (p.p_memsz - p.p_filesz) 0) m' (dst + p.p_filesz) (omega arith)
            (omega (arith, len, less))))
  | inr q ↦ rw q o
]

-- What a segment that is not refused satisfies.
pub segment-fits :
    (f : File) (bias : ℕ) (p : Phdr)
    → p.p_memsz < 18446744073709551616
    → segment_bad f bias p ≡ false
    → (user_addr_min ≤ wrap64 (bias + p.p_vaddr))
      × (wrap64 (bias + p.p_vaddr) + p.p_memsz ≤ user_addr_max)
      × (p.p_filesz ≤ p.p_memsz)
unfolding segment_bad
segment-fits f bias p small h =
    let ok : user_addr_range_ok (wrap64 (bias + p.p_vaddr)) p.p_memsz ≡ true = ground arith in
    let fits = range-fits (wrap64 (bias + p.p_vaddr)) p.p_memsz ok small in
    (fits.0, fits.1, ground arith)

load_segment-Outside :
    (f : File) (bias : ℕ) (p : Phdr) (m : Memory)
    → p.p_memsz < 18446744073709551616
    → Outside m (load_segment f bias p m).0
unfolding load_segment
load_segment-Outside f bias p m small = elim (Bool-cases (segment_bad f bias p)) [
  | inl q ↦ rw q (Outside-refl m)
  | inr q ↦
      let fits = segment-fits f bias p small q in
      rw q (
        after_copy-Outside p (wrap64 (bias + p.p_vaddr)) m _ fits.0 fits.1 (
          copy_segment-Outside p.p_filesz f p.p_offset (wrap64 (bias + p.p_vaddr)) p.p_filesz m
            fits.0 (omega (arith, fits.1, fits.2))))
]

then_load-Outside :
    (next : Memory → ℕ → Memory × ℕ × Bool) (hi : ℕ) (m : Memory) (r : Memory × Bool)
    → ((n : Memory) (h : ℕ) → Outside n (next n h).0)
    → Outside m r.0
    → Outside m (then_load next hi r).0
unfolding then_load
then_load-Outside next hi m (m', true) step o = o
then_load-Outside next hi m (m', false) step o = Outside-trans m m' _ o (step m' hi)

load_segments-Outside :
    (f : File) (bias : ℕ) (ps : List Phdr) (m : Memory) (hi : ℕ)
    → SmallSizes ps
    → Outside m (load_segments f bias ps m hi).0
unfolding load_segments
load_segments-Outside f bias [] m hi small = Outside-refl m
load_segments-Outside f bias (p ∷ ps) m hi small = elim (Bool-cases (p.p_type == pt_load)) [
  | inl q ↦ rw q (
      then_load-Outside (load_segments f bias ps) _ m _
        (λ n h. load_segments-Outside f bias ps n h small.1)
        (load_segment-Outside f bias p m small.0))
  | inr q ↦ rw q (load_segments-Outside f bias ps m hi small.1)
]

-- The steps behind the segments leave memory alone, but for the relocation.
finish-memory :
    (bias : ℕ) (eh : Ehdr) (ps : List Phdr) (hi : ℕ) (m : Memory) (o : Option (ℕ × Option (List ℕ)))
    → left_by (finish bias eh ps hi m o) ≡ m
unfolding finish left_by
finish-memory bias eh ps hi m none = refl
finish-memory bias eh ps hi m (some (phdr, interp)) =
    elim (Bool-cases ((if phdr == 0 then phdr_in_segment bias eh ps else phdr) == 0)) [
      | inl q ↦ rw q refl
      | inr q ↦ rw q refl
    ]

after_relocs-Outside :
    (f : File) (bias : ℕ) (eh : Ehdr) (ps : List Phdr) (hi : ℕ) (m : Memory) (r : Relocated)
    → Outside m (memory_of r)
    → Outside m (left_by (after_relocs f bias eh ps hi r))
unfolding after_relocs left_by
after_relocs-Outside f bias eh ps hi m (refused m') o = o
after_relocs-Outside f bias eh ps hi m (reading m') o = o
after_relocs-Outside f bias eh ps hi m (done m') o =
    subst (Outside m) (sym (finish-memory bias eh ps hi m' (scan_headers f bias ps 0 none))) o

after_segments-Outside :
    (fuel : ℕ) (f : File) (bias : ℕ) (eh : Ehdr) (ps : List Phdr) (m : Memory)
    → (r : Memory × ℕ × Bool) → Outside m r.0
    → Outside m (left_by (after_segments fuel f bias eh ps r))
unfolding after_segments left_by
after_segments-Outside fuel f bias eh ps m (m', hi, true) o = o
after_segments-Outside fuel f bias eh ps m (m', hi, false) o =
    after_relocs-Outside f bias eh ps hi m (edge_load_relative_relocs fuel ps bias m')
      (Outside-trans m m' _ o (relocs-Outside fuel ps bias m'))

place-Outside :
    (fuel : ℕ) (f : File) (eh : Ehdr) (ps : List Phdr) (m : Memory) (o : Option ℕ)
    → SmallSizes ps
    → Outside m (left_by (place fuel f eh ps m o))
unfolding place left_by
place-Outside fuel f eh ps m none small = Outside-refl m
place-Outside fuel f eh ps m (some bias) small =
    after_segments-Outside fuel f bias eh ps m (load_segments f bias ps m 0)
      (load_segments-Outside f bias ps m 0 small)

with_phdrs-Outside :
    (fuel : ℕ) (f : File) (base : ℕ) (eh : Ehdr) (m : Memory) (o : Option (List ℕ))
    → Outside m (left_by (with_phdrs fuel f base eh m o))
unfolding with_phdrs left_by
with_phdrs-Outside fuel f base eh m none = Outside-refl m
with_phdrs-Outside fuel f base eh m (some bs) =
    place-Outside fuel f eh (phdrs_of eh.e_phnum bs) m
      (load_bias_of base eh (phdrs_of eh.e_phnum bs)) (phdrs-SmallSizes eh.e_phnum bs)

with_ehdr-Outside :
    (fuel : ℕ) (f : File) (base : ℕ) (m : Memory) (o : Option (List ℕ))
    → Outside m (left_by (with_ehdr fuel f base m o))
unfolding with_ehdr left_by
with_ehdr-Outside fuel f base m none = Outside-refl m
with_ehdr-Outside fuel f base m (some bs) = elim (Bool-cases (ehdr_bad f (ehdr_of bs))) [
  | inl q ↦ rw q (Outside-refl m)
  | inr q ↦ rw q (with_phdrs-Outside fuel f base (ehdr_of bs) m _)
]

load_file-Outside :
    (fuel base : ℕ) (m : Memory) (o : Option File) → Outside m (left_by (load_file fuel base m o))
unfolding load_file left_by
load_file-Outside fuel base m none = Outside-refl m
load_file-Outside fuel base m (some f) = elim (Bool-cases (f.is_dir || ltb f.size 64)) [
  | inl q ↦ rw q (Outside-refl m)
  | inr q ↦ rw q (with_ehdr-Outside fuel f base m (vfs_pread_exact f 0 64))
]

load-Outside :
    (fs : FileSystem) (fuel : ℕ) (path : List ℕ) (base : ℕ) (m : Memory)
    → Outside m (left_by (edge_load_elf_from_vfs fs fuel path base m))
unfolding edge_load_elf_from_vfs
load-Outside fs fuel path base m = load_file-Outside fuel base m (fs path)

with_interp-memory : (l : Loaded) (r : Result) → exec_memory (with_interp l r) ≡ left_by r
unfolding with_interp exec_memory left_by
with_interp-memory l (error m) = refl
with_interp-memory l (unfinished m) = refl
with_interp-memory l (loaded i m) = refl

start_interp-Outside :
    (fs : FileSystem) (fuel : ℕ) (l : Loaded) (m : Memory) (o : Option (List ℕ))
    → Outside m (exec_memory (start_interp fs fuel l m o))
unfolding start_interp exec_memory
start_interp-Outside fs fuel l m none = Outside-refl m
start_interp-Outside fs fuel l m (some name) = elim (Bool-cases (get_or name 0 0 == 47)) [
  | inl q ↦ rw q (
      subst (Outside m)
        (sym (
          with_interp-memory l
            (edge_load_elf_from_vfs fs fuel (until_nul name) edge_interp_et_dyn_base m)))
        (load-Outside fs fuel (until_nul name) edge_interp_et_dyn_base m))
  | inr q ↦ rw q (Outside-refl m)
]

with_main-Outside :
    (fs : FileSystem) (fuel : ℕ) (m : Memory) (r : Result)
    → Outside m (left_by r)
    → Outside m (exec_memory (with_main fs fuel r))
unfolding with_main exec_memory left_by
with_main-Outside fs fuel m (error m') o = o
with_main-Outside fs fuel m (unfinished m') o = o
with_main-Outside fs fuel m (loaded l m') o =
    Outside-trans m m' _ o (start_interp-Outside fs fuel l m' l.interp)

-- Whatever a file and the interpreter that it names contain, the loader of programs changes no byte
-- of memory outside the user range, whether it loads them, fails half way, or goes on reading a
-- dynamic table.
pub exec-Outside :
    (fs : FileSystem) (fuel : ℕ) (path : List ℕ) (m : Memory) (a : ℕ)
    → (a < user_addr_min) ⊎ (user_addr_max ≤ a)
    → exec_memory (elf_loader_exec fs fuel path m) a ≡ m a
unfolding elf_loader_exec
exec-Outside fs fuel path m a out =
    let o =
      with_main-Outside fs fuel m (edge_load_elf_from_vfs fs fuel path edge_main_et_dyn_base m)
        (load-Outside fs fuel path edge_main_et_dyn_base m) in
    o.kept a out
