-- ===== src/Elf/Load.antt =====
-- src/elf/elf_loader.c: `edge_load_elf_from_vfs` and `elf_loader_exec`.
pub mod Safe
pub mod Valid
use edge_os.Prelude.{
  ℕ, zero, suc, Bool, true, false, ◌+◌, ◌-◌, ◌*◌, ◌%◌, Option, none, some, List, [], ◌∷◌, ◌++◌,
  length, take, replicate, get_or, ◌==◌, if◌then◌else◌, ltb, leb, not, ◌&&◌, ◌||◌, min,
}
use edge_os.Sys.User.{Memory, wrap64, write_bytes}
use edge_os.Elf.{
  Ehdr, ehdr_of, Phdr, phdrs_of, pt_load, pt_interp, pt_phdr, et_dyn, elf_valid, user_addr_range_ok,
  File, vfs_pread_exact,
}
use edge_os.Elf.Reloc.{Relocated, done, refused, reading, edge_load_relative_relocs}

abbrev pub elf_max_phnum : ℕ
elf_max_phnum = 128

abbrev pub elf_io_chunk : ℕ
elf_io_chunk = 4096

abbrev pub edge_main_et_dyn_base : ℕ
edge_main_et_dyn_base = 0x400000

abbrev pub edge_main_et_dyn_base_large : ℕ
edge_main_et_dyn_base_large = 0x30000000

abbrev pub edge_interp_et_dyn_base : ℕ
edge_interp_et_dyn_base = 0x20000000

abbrev pub user_low_limit_addr : ℕ
user_low_limit_addr = 0x800000

-- `edge_elf_loaded_t`
pub record Loaded : Type 0 where
  pub load_bias : ℕ
  pub entry : ℕ
  pub phdr : ℕ
  pub phnum : ℕ
  pub load_hi : ℕ
  pub interp : Option (List ℕ)

-- Memory, with what the program is, an error (-1), or no end yet: the loader still reads a dynamic
-- table that has no end mark.
pub data Result : Type 0 where
  loaded : Loaded → Memory → Result
  error unfinished : Memory → Result

-- how many bytes the next read of a segment takes: up to a chunk of the file
abbrev pub piece : ℕ → ℕ → ℕ
piece foff left =
    if foff % elf_io_chunk == 0
    then min left elf_io_chunk
    else min left (elf_io_chunk - foff % elf_io_chunk)

-- The loop that copies a segment, `left` bytes more, from the offset `foff` to `dst`; the flag says
-- that a read failed. A turn copies a byte at least.
unfoldable pub copy_segment : ℕ → File → ℕ → ℕ → ℕ → Memory → Memory × Bool
copy_segment zero f foff dst left m = (m, false)
copy_segment (suc fuel) f foff dst left m =
    if left == 0
    then (m, false)
    else elim (vfs_pread_exact f (foff % 4294967296) (piece foff left)) [
      | none ↦ (m, true)
      | some bs ↦
          copy_segment fuel f (wrap64 (foff + piece foff left)) (dst + piece foff left)
            (left - piece foff left) (write_bytes m dst (take (piece foff left) bs))
    ]

unfoldable pub after_copy : Phdr → ℕ → Memory × Bool → Memory × Bool
after_copy p dst (m, true) = (m, true)
after_copy p dst (m, false) = (
  if ltb p.p_filesz p.p_memsz
      then write_bytes m (dst + p.p_filesz) (replicate (p.p_memsz - p.p_filesz) 0)
      else m,
  false,
)

-- Is a segment refused? The source also tests that `end` is not below `dst`, which the range check
-- has made sure of.
unfoldable pub segment_bad : File → ℕ → Phdr → Bool
segment_bad f bias p =
    ltb f.size (wrap64 (p.p_offset + p.p_filesz))
    || (ltb p.p_memsz p.p_filesz || not (user_addr_range_ok (wrap64 (bias + p.p_vaddr)) p.p_memsz))

-- One segment: memory, and whether it was refused or a read failed.
unfoldable pub load_segment : File → ℕ → Phdr → Memory → Memory × Bool
unfolding after_copy
load_segment f bias p m =
    let dst = wrap64 (bias + p.p_vaddr) in
    if segment_bad f bias p
    then (m, true)
    else after_copy p dst (copy_segment p.p_filesz f p.p_offset dst p.p_filesz m)

abbrev pub raise_to : ℕ → ℕ → ℕ
raise_to hi x = if ltb hi x then x else hi

-- The loop over the program headers: memory, the highest end, and whether it failed.
unfoldable pub then_load : (Memory → ℕ → Memory × ℕ × Bool) → ℕ → Memory × Bool → Memory × ℕ × Bool
then_load next hi (m, true) = (m, hi, true)
then_load next hi (m, false) = next m hi

unfoldable pub load_segments : File → ℕ → List Phdr → Memory → ℕ → Memory × ℕ × Bool
unfolding then_load
load_segments f bias [] m hi = (m, hi, false)
load_segments f bias (p ∷ ps) m hi =
    let end = wrap64 (wrap64 (bias + p.p_vaddr) + p.p_memsz) in
    if p.p_type == pt_load
    then then_load (load_segments f bias ps) (raise_to hi end) (load_segment f bias p m)
    else load_segments f bias ps m hi

-- The highest end of a segment before it is moved; `none` is an overflow.
unfoldable pub highest_end : ℕ → List Phdr → Option ℕ
highest_end hi [] = some hi
highest_end hi (p ∷ ps) =
    let end = wrap64 (p.p_vaddr + p.p_memsz) in
    if not (p.p_type == pt_load)
    then highest_end hi ps
    else if ltb end p.p_vaddr
    then none
    else highest_end (raise_to hi end) ps

unfoldable pub bias_above : ℕ → Option ℕ → Option ℕ
bias_above base none = none
bias_above base (some hi) = some (
    if ltb user_low_limit_addr (wrap64 (edge_main_et_dyn_base + hi))
    then edge_main_et_dyn_base_large
    else base)

-- Where the program goes.
unfoldable pub load_bias_of : ℕ → Ehdr → List Phdr → Option ℕ
unfolding bias_above
load_bias_of base eh ps =
    if not (eh.e_type == et_dyn)
    then some 0
    else if base == edge_main_et_dyn_base
    then bias_above base (highest_end 0 ps)
    else some base

-- The last loop over the headers: the address of the headers, and the name of the interpreter;
-- `none` is an error.
unfoldable pub terminated : List ℕ → ℕ → List ℕ
terminated bs n = take (n - 1) bs ++ (0 ∷ [])

abbrev pub interp_bad : File → Phdr → Bool
interp_bad f p =
    (ltb p.p_filesz 2 || leb 256 p.p_filesz) || ltb f.size (wrap64 (p.p_offset + p.p_filesz))

unfoldable pub scan_headers :
    File → ℕ → List Phdr → ℕ → Option (List ℕ) → Option (ℕ × Option (List ℕ))
unfolding terminated
scan_headers f bias [] phdr interp = some (phdr, interp)
scan_headers f bias (p ∷ ps) phdr interp =
    let phdr' = if p.p_type == pt_phdr then wrap64 (bias + p.p_vaddr) else phdr in
    if not (p.p_type == pt_interp)
    then scan_headers f bias ps phdr' interp
    else if interp_bad f p
    then none
    else elim (vfs_pread_exact f (p.p_offset % 4294967296) p.p_filesz) [
      | none ↦ none
      | some bs ↦ scan_headers f bias ps phdr' (some (terminated bs p.p_filesz))
    ]

-- The address of the headers in the first segment that holds them, or 0.
unfoldable pub phdr_in_segment : ℕ → Ehdr → List Phdr → ℕ
phdr_in_segment bias eh [] = 0
phdr_in_segment bias eh (p ∷ ps) =
    let rest = phdr_in_segment bias eh ps in
    if not (p.p_type == pt_load)
    then rest
    else if ltb eh.e_phoff p.p_offset
    then rest
    else if ltb (wrap64 (p.p_offset + p.p_filesz)) (wrap64 (eh.e_phoff + eh.e_phnum * 56))
    then rest
    else wrap64 (wrap64 (bias + p.p_vaddr) + (eh.e_phoff - p.p_offset))

-- What the loader makes of a program whose segments are in memory.
unfoldable pub finish : ℕ → Ehdr → List Phdr → ℕ → Memory → Option (ℕ × Option (List ℕ)) → Result
finish bias eh ps hi m none = error m
finish bias eh ps hi m (some (phdr, interp)) =
    let at = if phdr == 0 then phdr_in_segment bias eh ps else phdr in
    if at == 0
    then error m
    else loaded
        (record {
          load_bias = bias;
          entry = wrap64 (bias + eh.e_entry);
          phdr = at;
          phnum = eh.e_phnum;
          load_hi = hi;
          interp = interp;
        })
        m

unfoldable pub after_relocs : File → ℕ → Ehdr → List Phdr → ℕ → Relocated → Result
unfolding finish
after_relocs f bias eh ps hi (refused m) = error m
after_relocs f bias eh ps hi (reading m) = unfinished m
after_relocs f bias eh ps hi (done m) = finish bias eh ps hi m (scan_headers f bias ps 0 none)

unfoldable pub after_segments : ℕ → File → ℕ → Ehdr → List Phdr → Memory × ℕ × Bool → Result
unfolding after_relocs
after_segments fuel f bias eh ps (m, hi, true) = error m
after_segments fuel f bias eh ps (m, hi, false) =
    after_relocs f bias eh ps hi (edge_load_relative_relocs fuel ps bias m)

unfoldable pub place : ℕ → File → Ehdr → List Phdr → Memory → Option ℕ → Result
unfolding after_segments
place fuel f eh ps m none = error m
place fuel f eh ps m (some bias) = after_segments fuel f bias eh ps (load_segments f bias ps m 0)

unfoldable pub with_phdrs : ℕ → File → ℕ → Ehdr → Memory → Option (List ℕ) → Result
unfolding place
with_phdrs fuel f base eh m none = error m
with_phdrs fuel f base eh m (some bs) =
    let ps = phdrs_of eh.e_phnum bs in place fuel f eh ps m (load_bias_of base eh ps)

-- Is the header refused?
unfoldable pub ehdr_bad : File → Ehdr → Bool
ehdr_bad f eh =
    (not (elf_valid eh) || not (eh.e_phentsize == 56))
    || (((eh.e_phnum == 0) || ltb elf_max_phnum eh.e_phnum)
        || ltb f.size (wrap64 (eh.e_phoff + eh.e_phnum * 56)))

unfoldable pub with_ehdr : ℕ → File → ℕ → Memory → Option (List ℕ) → Result
unfolding with_phdrs
with_ehdr fuel f base m none = error m
with_ehdr fuel f base m (some bs) =
    let eh = ehdr_of bs in
    if ehdr_bad f eh
    then error m
    else with_phdrs fuel f base eh m (vfs_pread_exact f (eh.e_phoff % 4294967296) (eh.e_phnum * 56))

unfoldable pub load_file : ℕ → ℕ → Memory → Option File → Result
unfolding with_ehdr
load_file fuel base m none = error m
load_file fuel base m (some f) =
    if f.is_dir || ltb f.size 64 then error m else with_ehdr fuel f base m (vfs_pread_exact f 0 64)

-- What the file system gives for a path: `vfs_resolve`.
abbrev pub FileSystem : Type 0
FileSystem = List ℕ → Option File

unfoldable pub edge_load_elf_from_vfs : FileSystem → ℕ → List ℕ → ℕ → Memory → Result
unfolding load_file
edge_load_elf_from_vfs fs fuel path base m = load_file fuel base m (fs path)

-- `edge_elf_image_t`
pub record Image : Type 0 where
  pub entry_rip : ℕ
  pub at_phdr : ℕ
  pub at_phnum : ℕ
  pub at_entry : ℕ
  pub at_base : ℕ
  pub main_load_hi : ℕ

-- Memory, with the image, an error, or no end yet.
pub data Exec : Type 0 where
  image : Image → Memory → Exec
  failed running : Memory → Exec

abbrev pub image_of : Loaded → ℕ → ℕ → Image
image_of l rip base = record {
  entry_rip = rip;
  at_phdr = l.phdr;
  at_phnum = l.phnum;
  at_entry = l.entry;
  at_base = base;
  main_load_hi = l.load_hi;
}

unfoldable pub with_interp : Loaded → Result → Exec
with_interp l (error m) = failed m
with_interp l (unfinished m) = running m
with_interp l (loaded i m) = image (image_of l i.entry i.load_bias) m

-- the name up to its NUL
unfoldable pub until_nul : List ℕ → List ℕ
until_nul [] = []
until_nul (c ∷ s) = let rest = until_nul s in if c == 0 then [] else c ∷ rest

unfoldable pub start_interp : FileSystem → ℕ → Loaded → Memory → Option (List ℕ) → Exec
unfolding with_interp until_nul
start_interp fs fuel l m none = image (image_of l l.entry 0) m
start_interp fs fuel l m (some name) =
    if get_or name 0 0 == 47
    then with_interp l (edge_load_elf_from_vfs fs fuel (until_nul name) edge_interp_et_dyn_base m)
    else failed m

unfoldable pub with_main : FileSystem → ℕ → Result → Exec
unfolding start_interp
with_main fs fuel (error m) = failed m
with_main fs fuel (unfinished m) = running m
with_main fs fuel (loaded l m) = start_interp fs fuel l m l.interp

unfoldable pub elf_loader_exec : FileSystem → ℕ → List ℕ → Memory → Exec
unfolding with_main
elf_loader_exec fs fuel path m =
    with_main fs fuel (edge_load_elf_from_vfs fs fuel path edge_main_et_dyn_base m)
