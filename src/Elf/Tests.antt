-- ===== src/Elf/Tests.antt =====
-- src/elf/elf_loader.c: the theorems on the loader at a program, and tests.
use edge_os.Prelude.{
  ℕ, false, ◌≡◌, refl, inl, none, some, List, [], ◌∷◌, ◌++◌, take, drop, replicate, arith,
}
use edge_os.Sys.User.{le, Memory, write_bytes}
use edge_os.Elf.{
  ehdr_of, phdr_of, phdrs_of, elf_valid, user_addr_range_ok, File, pread_loop, vfs_pread_exact,
}
use edge_os.Elf.Reloc.{edge_load_relative_relocs, find_dynamic}
use edge_os.Elf.Load.{
  Loaded, loaded, copy_segment, after_copy, segment_bad, load_segment, then_load, load_segments,
  load_bias_of, scan_headers, phdr_in_segment, finish, after_relocs, after_segments, place,
  with_phdrs, ehdr_bad, with_ehdr, load_file, FileSystem, edge_load_elf_from_vfs,
  edge_main_et_dyn_base, elf_loader_exec,
}
use edge_os.Elf.Load.Safe.{left_by, exec_memory, exec-Outside}
use edge_os.Elf.Load.Valid.{Accepted, loaded-IsProgram}

-- A program of 120 bytes with one segment, which is the whole file, at 0x400000.
abbrev zeros : ℕ → List ℕ
zeros n = replicate n 0

abbrev header : List ℕ
header =
    (0x7f ∷ 69 ∷ 76 ∷ 70 ∷ 2 ∷ [])
    ++ (zeros 11
        ++ ((2 ∷ 0 ∷ 62 ∷ 0 ∷ [])
            ++ (zeros 4
                ++ ((0 ∷ 0 ∷ 0x40 ∷ [])
                    ++ (zeros 5
                        ++ ((64 ∷ []) ++ (zeros 21 ++ ((56 ∷ 0 ∷ 1 ∷ 0 ∷ []) ++ zeros 6))))))))

abbrev segment : List ℕ
segment =
    (1 ∷ 0 ∷ 0 ∷ 0 ∷ [])
    ++ (zeros 12
        ++ ((0 ∷ 0 ∷ 0x40 ∷ [])
            ++ (zeros 13 ++ ((120 ∷ []) ++ (zeros 7 ++ ((128 ∷ []) ++ zeros 15))))))

abbrev program : File
program = record {
  is_dir = false;
  size = 120;
  read = λ off n. some (take n (drop off (header ++ segment)));
}

abbrev files : FileSystem
files path = some program

abbrev blank : Memory
blank a = 7

exec-Outside_example : exec_memory (elf_loader_exec files 10 [] blank) 0x100 ≡ blank 0x100
exec-Outside_example = exec-Outside files 10 [] blank 0x100 (inl (omega arith))

abbrev result : Loaded
result = record {
  load_bias = 0;
  entry = 0x400000;
  phdr = 0x400040;
  phnum = 1;
  load_hi = 0x400080;
  interp = none;
}

abbrev after : Memory
after = left_by (edge_load_elf_from_vfs files 10 [] edge_main_et_dyn_base blank)

loads : edge_load_elf_from_vfs files 10 [] edge_main_et_dyn_base blank ≡ loaded result after
unfolding edge_load_elf_from_vfs load_file with_ehdr ehdr_bad with_phdrs place after_segments
    after_relocs finish phdr_in_segment scan_headers load_bias_of load_segments then_load
    load_segment segment_bad after_copy copy_segment edge_load_relative_relocs find_dynamic
    vfs_pread_exact pread_loop user_addr_range_ok elf_valid phdrs_of phdr_of ehdr_of le left_by
    write_bytes
loads = refl

loaded-IsProgram_example : (f : File) × (files [] ≡ some f) × Accepted f result
loaded-IsProgram_example =
    loaded-IsProgram files 10 [] edge_main_et_dyn_base blank after result loads
