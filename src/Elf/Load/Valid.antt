-- ===== src/Elf/Load/Valid.antt =====
-- src/elf/elf_loader.c: what a program that the loader accepts is.
use edge_os.Prelude.{
  ℕ, Bool, true, false, ◌+◌, ◌*◌, ◌%◌, ◌≤◌, ◌<◌, ◌≡◌, ◌≢◌, refl, sym, inl, inr, Option, none, some,
  List, [], ◌∷◌, if◌then◌else◌, ◌==◌, ltb, ◌||◌, arith, Bool-cases, subst,
}
use edge_os.Sys.User.{Memory, wrap64}
use edge_os.Elf.{
  Ehdr, Phdr, pt_load, elf_valid, user_addr_min, user_addr_max, File, vfs_pread_exact, ehdr_of,
  phdrs_of,
}
use edge_os.Elf.Reloc.{Relocated, done, refused, reading, edge_load_relative_relocs}
use edge_os.Elf.Load.{
  Loaded, loaded, error, elf_max_phnum, segment_bad, load_segment, then_load, raise_to,
  load_segments, scan_headers, phdr_in_segment, finish, after_relocs, after_segments, place,
  with_phdrs, ehdr_bad, with_ehdr, load_file, FileSystem, edge_load_elf_from_vfs,
}
use edge_os.Elf.Load.Safe.{SmallSizes, phdrs-SmallSizes, segment-fits}

-- Each segment to load lies in the user range, and its part from the file is not larger than it.
pub SegmentsFit : ℕ → List Phdr → Type 0
SegmentsFit bias [] = Unit
SegmentsFit bias (p ∷ ps) =
    if p.p_type == pt_load
    then ((user_addr_min ≤ wrap64 (bias + p.p_vaddr))
        × (wrap64 (bias + p.p_vaddr) + p.p_memsz ≤ user_addr_max)
        × (p.p_filesz ≤ p.p_memsz))
      × SegmentsFit bias ps
    else SegmentsFit bias ps

segment-good :
    (f : File) (bias : ℕ) (p : Phdr) (m : Memory)
    → (load_segment f bias p m).1 ≡ false
    → segment_bad f bias p ≡ false
unfolding load_segment
segment-good f bias p m h = elim (Bool-cases (segment_bad f bias p)) [
  | inl q ↦ absurd (ground arith)
  | inr q ↦ q
]

then-good :
    (next : Memory → ℕ → Memory × ℕ × Bool) (hi : ℕ) (r : Memory × Bool)
    → (then_load next hi r).2 ≡ false
    → (r.1 ≡ false) × ((next r.0 hi).2 ≡ false)
unfolding then_load
then-good next hi (m, true) h = absurd (cc)
then-good next hi (m, false) h = (refl, h)

load_segments-Fit :
    (f : File) (bias : ℕ) (ps : List Phdr) (m : Memory) (hi : ℕ)
    → SmallSizes ps
    → (load_segments f bias ps m hi).2 ≡ false
    → SegmentsFit bias ps
unfolding load_segments SegmentsFit
load_segments-Fit f bias [] m hi small h = tt
load_segments-Fit f bias (p ∷ ps) m hi small h = elim (Bool-cases (p.p_type == pt_load)) [
  | inl q ↦
      let r =
        then-good (load_segments f bias ps)
          (raise_to hi (wrap64 (wrap64 (bias + p.p_vaddr) + p.p_memsz))) (load_segment f bias p m)
          (rw q at h) in
      rw q (
        segment-fits f bias p small.0 (segment-good f bias p m r.0),
        load_segments-Fit f bias ps _ _ small.1 r.1,
      )
  | inr q ↦ rw q (load_segments-Fit f bias ps m hi small.1 (rw q at h))
]

-- What is known of a program that is loaded: the header is that of a 64-bit program for this
-- machine, the headers of the segments are of the known size and at most 128, the segments fit, and
-- their headers are in memory.
pub record IsProgram (f : File) (l : Loaded) (bs hs : List ℕ) : Type 0 where
  pub header_read : vfs_pread_exact f 0 64 ≡ some bs
  pub table_read :
      vfs_pread_exact f ((ehdr_of bs).e_phoff % 4294967296) ((ehdr_of bs).e_phnum * 56) ≡ some hs
  pub header : elf_valid (ehdr_of bs) ≡ true
  pub phentsize : (ehdr_of bs).e_phentsize ≡ 56
  pub phnum : l.phnum ≡ (ehdr_of bs).e_phnum
  pub some_headers : 0 < l.phnum
  pub few_headers : l.phnum ≤ elf_max_phnum
  pub segments : SegmentsFit l.load_bias (phdrs_of l.phnum hs)
  pub phdr : l.phdr ≢ 0
  pub entry : l.entry ≡ wrap64 (l.load_bias + (ehdr_of bs).e_entry)

-- the fields of the result that the last step sets
record Finished (bias : ℕ) (eh : Ehdr) (l : Loaded) : Type 0 where
  bias_is : l.load_bias ≡ bias
  phnum_is : l.phnum ≡ eh.e_phnum
  phdr_set : l.phdr ≢ 0
  entry_is : l.entry ≡ wrap64 (bias + eh.e_entry)

finish-Finished :
    (bias : ℕ) (eh : Ehdr) (ps : List Phdr) (hi : ℕ) (m m' : Memory)
    (o : Option (ℕ × Option (List ℕ)))
    → (l : Loaded) → finish bias eh ps hi m o ≡ loaded l m'
    → Finished bias eh l
unfolding finish
finish-Finished bias eh ps hi m m' none l h = absurd (cc)
finish-Finished bias eh ps hi m m' (some (phdr, interp)) l h =
    let at = if phdr == 0 then phdr_in_segment bias eh ps else phdr in
    elim (Bool-cases (at == 0)) [
      | inl q ↦ absurd (let e : error m ≡ loaded l m' = rw q at h in cc)
      | inr q ↦
          let made : Loaded = record {
            load_bias = bias;
            entry = wrap64 (bias + eh.e_entry);
            phdr = at;
            phnum = eh.e_phnum;
            load_hi = hi;
            interp = interp;
          } in
          let e : loaded made m ≡ loaded l m' = rw q at h in
          let same : made ≡ l = cc in
          let set : at ≢ 0 = λ z. ground (arith, z) in
          subst (Finished bias eh) same
            (record { bias_is = refl; phnum_is = refl; phdr_set = set; entry_is = refl })
    ]

after_relocs-Finished :
    (f : File) (bias : ℕ) (eh : Ehdr) (ps : List Phdr) (hi : ℕ) (m' : Memory) (r : Relocated)
    → (l : Loaded) → after_relocs f bias eh ps hi r ≡ loaded l m'
    → Finished bias eh l
unfolding after_relocs
after_relocs-Finished f bias eh ps hi m' (refused m) l h = absurd (cc)
after_relocs-Finished f bias eh ps hi m' (reading m) l h = absurd (cc)
after_relocs-Finished f bias eh ps hi m' (done m) l h =
    finish-Finished bias eh ps hi m m' (scan_headers f bias ps 0 none) l h

after_segments-Finished :
    (fuel : ℕ) (f : File) (bias : ℕ) (eh : Ehdr) (ps : List Phdr) (m' : Memory)
    → (r : Memory × ℕ × Bool) (l : Loaded) → after_segments fuel f bias eh ps r ≡ loaded l m'
    → (r.2 ≡ false) × Finished bias eh l
unfolding after_segments
after_segments-Finished fuel f bias eh ps m' (m, hi, true) l h = absurd (cc)
after_segments-Finished fuel f bias eh ps m' (m, hi, false) l h =
    (refl, after_relocs-Finished f bias eh ps hi m' (edge_load_relative_relocs fuel ps bias m) l h)

place-Finished :
    (fuel : ℕ) (f : File) (eh : Ehdr) (ps : List Phdr) (m m' : Memory) (o : Option ℕ) (l : Loaded)
    → SmallSizes ps
    → place fuel f eh ps m o ≡ loaded l m'
    → Finished l.load_bias eh l × SegmentsFit l.load_bias ps
unfolding place
place-Finished fuel f eh ps m m' none l small h = absurd (cc)
place-Finished fuel f eh ps m m' (some bias) l small h =
    let r = after_segments-Finished fuel f bias eh ps m' (load_segments f bias ps m 0) l h in
    let fit = load_segments-Fit f bias ps m 0 small r.0 in
    let e = sym r.1.bias_is in
    (subst (λ (b : ℕ). Finished b eh l) e r.1, subst (λ (b : ℕ). SegmentsFit b ps) e fit)

-- What the check of the header says, and the whole of the loader.
header-good :
    (f : File) (eh : Ehdr)
    → ehdr_bad f eh ≡ false
    → (elf_valid eh ≡ true)
      × (eh.e_phentsize ≡ 56)
      × (0 < eh.e_phnum)
      × (eh.e_phnum ≤ elf_max_phnum)
unfolding ehdr_bad
header-good f eh h = (ground arith, ground arith, ground arith, ground arith)

pub Accepted : File → Loaded → Type 0
Accepted f l = (bs : List ℕ) × (hs : List ℕ) × IsProgram f l bs hs

with_phdrs-Accepted :
    (fuel : ℕ) (f : File) (base : ℕ) (bs : List ℕ) (m m' : Memory) (o : Option (List ℕ))
    (l : Loaded)
    → vfs_pread_exact f 0 64 ≡ some bs
    → vfs_pread_exact f ((ehdr_of bs).e_phoff % 4294967296) ((ehdr_of bs).e_phnum * 56) ≡ o
    → ehdr_bad f (ehdr_of bs) ≡ false
    → with_phdrs fuel f base (ehdr_of bs) m o ≡ loaded l m'
    → Accepted f l
unfolding with_phdrs Accepted
with_phdrs-Accepted fuel f base bs m m' none l hd tb good h = absurd (cc)
with_phdrs-Accepted fuel f base bs m m' (some hs) l hd tb good h =
    let eh = ehdr_of bs in
    let g = header-good f eh good in
    let r =
      place-Finished fuel f eh (phdrs_of eh.e_phnum hs) m m' _ l (phdrs-SmallSizes eh.e_phnum hs)
        h in
    let n = r.0.phnum_is in
    (
      bs,
      hs,
      record {
        header_read = hd;
        table_read = tb;
        header = g.0;
        phentsize = g.1;
        phnum = n;
        some_headers = omega (arith, n, g.2);
        few_headers = omega (arith, n, g.3);
        segments = subst (λ (k : ℕ). SegmentsFit l.load_bias (phdrs_of k hs)) (sym n) r.1;
        phdr = r.0.phdr_set;
        entry = r.0.entry_is;
      },
    )

with_ehdr-Accepted :
    (fuel : ℕ) (f : File) (base : ℕ) (m m' : Memory) (o : Option (List ℕ)) (l : Loaded)
    → vfs_pread_exact f 0 64 ≡ o
    → with_ehdr fuel f base m o ≡ loaded l m'
    → Accepted f l
unfolding with_ehdr
with_ehdr-Accepted fuel f base m m' none l hd h = absurd (cc)
with_ehdr-Accepted fuel f base m m' (some bs) l hd h = elim (Bool-cases (ehdr_bad f (ehdr_of bs))) [
  | inl q ↦ absurd (let e : error m ≡ loaded l m' = rw q at h in cc)
  | inr q ↦ with_phdrs-Accepted fuel f base bs m m' _ l hd refl q (rw q at h)
]

load_file-Accepted :
    (fuel base : ℕ) (m m' : Memory) (o : Option File) (l : Loaded)
    → load_file fuel base m o ≡ loaded l m'
    → (f : File) × (o ≡ some f) × Accepted f l
unfolding load_file
load_file-Accepted fuel base m m' none l h = absurd (cc)
load_file-Accepted fuel base m m' (some f) l h = elim (Bool-cases (f.is_dir || ltb f.size 64)) [
  | inl q ↦ absurd (let e : error m ≡ loaded l m' = rw q at h in cc)
  | inr q ↦ (f, refl, with_ehdr-Accepted fuel f base m m' _ l refl (rw q at h))
]

-- A program that is loaded is there as a file whose header is that of a 64-bit ELF program for this
-- machine, with 1 to 128 program headers of the known size; each of its segments to load lies in
-- the user range at the place where it is put, and is not shorter than its part of the file; the
-- entry is moved with the segments, and the headers have an address.
pub loaded-IsProgram :
    (fs : FileSystem) (fuel : ℕ) (path : List ℕ) (base : ℕ) (m m' : Memory) (l : Loaded)
    → edge_load_elf_from_vfs fs fuel path base m ≡ loaded l m'
    → (f : File) × (fs path ≡ some f) × Accepted f l
unfolding edge_load_elf_from_vfs
loaded-IsProgram fs fuel path base m m' l h = load_file-Accepted fuel base m m' (fs path) l h
