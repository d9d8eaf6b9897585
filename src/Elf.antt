-- ===== src/Elf.antt =====
-- src/elf/elf_loader.c: the ELF loader. A file is what the file system gives for a path: its mode,
-- its size, and its `read`. Memory is a function from addresses to bytes.
pub mod Reloc
pub mod Load
mod Tests
use edge_os.Prelude.{
  ℕ, zero, suc, Bool, true, false, ◌+◌, ◌-◌, ◌*◌, ◌/◌, ◌%◌, Option, none, some, List, [], ◌∷◌, ◌++◌,
  length, take, drop, replicate, get_or, ◌==◌, if◌then◌else◌, ltb, leb, not, ◌&&◌, ◌||◌, min,
}
use edge_os.Sys.User.{le, Memory, wrap64}

abbrev pub user_addr_min : ℕ
user_addr_min = 0x1000

abbrev pub user_addr_max : ℕ
user_addr_max = 0x40000000

-- the number at an offset of a structure, and the `uint64_t` there
abbrev pub field : ℕ → ℕ → List ℕ → ℕ
field off n bs = le n (drop off bs)

abbrev pub field64 : ℕ → List ℕ → ℕ
field64 off bs = wrap64 (field off 8 bs)

-- The fields of `elf64_ehdr_t` that the loader reads.
pub record Ehdr : Type 0 where
  pub e_ident : List ℕ
  pub e_type : ℕ
  pub e_machine : ℕ
  pub e_entry : ℕ
  pub e_phoff : ℕ
  pub e_phentsize : ℕ
  pub e_phnum : ℕ

unfoldable pub ehdr_of : List ℕ → Ehdr
ehdr_of bs = record {
  e_ident = take 16 bs;
  e_type = field 16 2 bs;
  e_machine = field 18 2 bs;
  e_entry = field64 24 bs;
  e_phoff = field64 32 bs;
  e_phentsize = field 54 2 bs;
  e_phnum = field 56 2 bs;
}

-- The fields of `elf64_phdr_t` that the loader reads.
pub record Phdr : Type 0 where
  pub p_type : ℕ
  pub p_offset : ℕ
  pub p_vaddr : ℕ
  pub p_filesz : ℕ
  pub p_memsz : ℕ

unfoldable pub phdr_of : List ℕ → Phdr
phdr_of bs = record {
  p_type = field 0 4 bs;
  p_offset = field64 8 bs;
  p_vaddr = field64 16 bs;
  p_filesz = field64 32 bs;
  p_memsz = field64 40 bs;
}

-- the table of program headers, of which `n` are left
unfoldable pub phdrs_of : ℕ → List ℕ → List Phdr
phdrs_of zero bs = []
phdrs_of (suc n) bs = phdr_of bs ∷ phdrs_of n (drop 56 bs)

abbrev pub pt_load : ℕ
pt_load = 1

abbrev pub pt_dynamic : ℕ
pt_dynamic = 2

abbrev pub pt_interp : ℕ
pt_interp = 3

abbrev pub pt_phdr : ℕ
pt_phdr = 6

abbrev pub et_exec : ℕ
et_exec = 2

abbrev pub et_dyn : ℕ
et_dyn = 3

abbrev pub ident : ℕ → Ehdr → ℕ
ident i eh = get_or eh.e_ident i 0

unfoldable pub elf_valid : Ehdr → Bool
elf_valid eh =
    ((ident 0 eh == 0x7f) && ((ident 1 eh == 69) && ((ident 2 eh == 76) && (ident 3 eh == 70))))
    && ((ident 4 eh == 2)
        && ((eh.e_machine == 62) && ((eh.e_type == et_exec) || (eh.e_type == et_dyn))))

unfoldable pub user_addr_range_ok : ℕ → ℕ → Bool
user_addr_range_ok addr len =
    if ltb addr user_addr_min
    then false
    else if leb user_addr_max addr
    then false
    else if len == 0
    then true
    else if ltb (wrap64 (addr + len)) addr
    then false
    else not (ltb user_addr_max (wrap64 (addr + len)))

-- What the file system gives for a path. `read` fails, or gives bytes from an offset on, of which
-- the caller takes as many as it asked for.
pub record File : Type 0 where
  pub is_dir : Bool
  pub size : ℕ
  pub read : ℕ → ℕ → Option (List ℕ)

-- The loop of `vfs_pread_exact`, with `left` bytes to go; each turn reads one at least. The end of the
-- data before the end of the file is read as zeros.
unfoldable pub pread_loop : ℕ → File → ℕ → ℕ → Option (List ℕ)
pread_loop zero f off left = some []
pread_loop (suc fuel) f off left =
    if left == 0 then some [] else elim (f.read (off % 4294967296) left) [
      | none ↦ none
      | some [] ↦ if ltb (off % 4294967296) f.size then some (replicate left 0) else none
      | some (b ∷ bs) ↦
          let got = take left (b ∷ bs) in
          elim (pread_loop fuel f (off + length got) (left - length got)) [
            | none ↦ none
            | some rest ↦ some (got ++ rest)
          ]
    ]

unfoldable pub vfs_pread_exact : File → ℕ → ℕ → Option (List ℕ)
vfs_pread_exact f off len = pread_loop len f off len
