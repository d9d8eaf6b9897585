-- ===== src/Elf/Reloc.antt =====
-- src/elf/elf_loader.c: `edge_load_relative_relocs`. The dynamic table is read from the memory of
-- the program, up to its end mark; `fuel` bounds the entries that are read.
use edge_os.Prelude.{
  ℕ, zero, suc, Bool, true, false, ◌+◌, ◌/◌, ◌%◌, ◌≤◌, ◌<◌, ◌≡◌, refl, ◌∙◌, ◌⊎◌, inl, inr, Option,
  none, some, List, [], ◌∷◌, length, ◌==◌, if◌then◌else◌, ltb, not, ◌||◌, arith, Bool-cases,
}
use edge_os.Prelude.Maps.{upd, upd_ne}
use edge_os.Sys.User.{word_at, bytes_of, Memory, wrap64, write_bytes}
use edge_os.Elf.{Phdr, pt_dynamic, user_addr_range_ok, user_addr_min, user_addr_max}

-- `rela_addr`, `rela_sz` and `rela_ent`
pub record Rela : Type 0 where
  pub addr : ℕ
  pub size : ℕ
  pub ent : ℕ

abbrev start_rela : Rela
start_rela = record { addr = 0; size = 0; ent = 24 }

take_entry : ℕ → ℕ → Rela → Rela
take_entry tag v r =
    if tag == 7
    then record r { addr = v }
    else if tag == 8
    then record r { size = v }
    else if tag == 9
    then record r { ent = v }
    else r

-- `none` means that the fuel ran out before the end mark.
unfoldable pub read_dynamic : ℕ → Memory → ℕ → Rela → Option Rela
unfolding take_entry
read_dynamic zero m at r = none
read_dynamic (suc fuel) m at r =
    if word_at m at == 0
    then some r
    else read_dynamic fuel m (at + 16) (take_entry (word_at m at) (word_at m (at + 8)) r)

-- The loop over the relocations, with `n` left; the flag says that one was refused.
unfoldable pub relocate : ℕ → ℕ → ℕ → ℕ → Memory → Memory × Bool
relocate zero bias at ent m = (m, false)
relocate (suc n) bias at ent m =
    let where_to = wrap64 (bias + word_at m at) in
    let value = wrap64 (bias + word_at m (wrap64 (at + 16))) in
    if not (word_at m (wrap64 (at + 8)) % 4294967296 == 8)
    then relocate n bias (wrap64 (at + ent)) ent m
    else if user_addr_range_ok where_to 8
    then relocate n bias (wrap64 (at + ent)) ent (write_bytes m where_to (bytes_of value))
    else (m, true)

-- the address of the first dynamic table
unfoldable pub find_dynamic : ℕ → List Phdr → Option ℕ
find_dynamic bias [] = none
find_dynamic bias (p ∷ ps) =
    if p.p_type == pt_dynamic then some (wrap64 (bias + p.p_vaddr)) else find_dynamic bias ps

-- Memory, and how the relocation ended: done, refused, or still reading the table.
pub data Relocated : Type 0 where
  done refused : Memory → Relocated
  reading : Memory → Relocated

outcome : Memory × Bool → Relocated
outcome (m, false) = done m
outcome (m, true) = refused m

with_table : ℕ → Memory → Option Rela → Relocated
unfolding outcome
with_table bias m none = reading m
with_table bias m (some r) =
    if (r.addr == 0) || ((r.size == 0) || ltb r.ent 24)
    then done m
    else outcome (relocate (r.size / r.ent) bias (wrap64 (bias + r.addr)) r.ent m)

with_dynamic : ℕ → ℕ → Memory → Option ℕ → Relocated
unfolding with_table
with_dynamic fuel bias m none = done m
with_dynamic fuel bias m (some at) =
    if at == 0 then done m else with_table bias m (read_dynamic fuel m at start_rela)

unfoldable pub edge_load_relative_relocs : ℕ → List Phdr → ℕ → Memory → Relocated
unfolding with_dynamic
edge_load_relative_relocs fuel ps bias m = with_dynamic fuel bias m (find_dynamic bias ps)

abbrev pub memory_of : Relocated → Memory
memory_of (done m) = m
memory_of (refused m) = m
memory_of (reading m) = m

-- The memory outside the user range is as it was.
pub record Outside (m m' : Memory) : Type 0 where
  pub kept : (a : ℕ) → (a < user_addr_min) ⊎ (user_addr_max ≤ a) → m' a ≡ m a

pub Outside-refl : (m : Memory) → Outside m m
Outside-refl m = record { kept = λ a h. refl }

pub Outside-trans : (m n o : Memory) → Outside m n → Outside n o → Outside m o
Outside-trans m n o p q = record { kept = λ a h. q.kept a h ∙ p.kept a h }

-- A write of bytes in the user range.
pub write-Outside :
    (bs : List ℕ) (m : Memory) (a : ℕ)
    → user_addr_min ≤ a
    → a + length bs ≤ user_addr_max
    → Outside m (write_bytes m a bs)
unfolding write_bytes
write-Outside [] m a lo hi = Outside-refl m
write-Outside (b ∷ bs) m a lo hi =
    Outside-trans m (upd m a b) _
      (record {
        kept = λ x h. upd_ne m a b x (λ e. elim h [ inl l ↦ omega arith | inr u ↦ omega arith ]);
      })
      (write-Outside bs (upd m a b) (a + 1) (omega arith) (omega arith))

-- What the check of a range says.
pub range-fits :
    (a n : ℕ)
    → user_addr_range_ok a n ≡ true
    → n < 18446744073709551616
    → (user_addr_min ≤ a) × (a + n ≤ user_addr_max)
unfolding user_addr_range_ok
range-fits a n h small = (ground arith, ground arith)

relocate-Outside : (n bias at ent : ℕ) (m : Memory) → Outside m (relocate n bias at ent m).0
unfolding relocate
relocate-Outside zero bias at ent m = Outside-refl m
relocate-Outside (suc n) bias at ent m =
    let where_to = wrap64 (bias + word_at m at) in
    elim (Bool-cases (not (word_at m (wrap64 (at + 8)) % 4294967296 == 8))) [
      | inl q ↦ rw q (relocate-Outside n bias (wrap64 (at + ent)) ent m)
      | inr q ↦ elim (Bool-cases (user_addr_range_ok where_to 8)) [
        | inl ok ↦
            let fits = range-fits where_to 8 ok (omega arith) in
            rw (q, ok)
              (Outside-trans m _ _ (write-Outside _ m where_to fits.0 fits.1)
                (relocate-Outside n bias (wrap64 (at + ent)) ent _))
        | inr bad ↦ rw (q, bad) (Outside-refl m)
      ]
    ]

outcome-Outside :
    (m : Memory) (r : Memory × Bool) → Outside m r.0 → Outside m (memory_of (outcome r))
unfolding outcome
outcome-Outside m (m', false) o = o
outcome-Outside m (m', true) o = o

with_table-Outside :
    (bias : ℕ) (m : Memory) (o : Option Rela) → Outside m (memory_of (with_table bias m o))
unfolding with_table
with_table-Outside bias m none = Outside-refl m
with_table-Outside bias m (some r) =
    elim (Bool-cases ((r.addr == 0) || ((r.size == 0) || ltb r.ent 24))) [
      | inl q ↦ rw q (Outside-refl m)
      | inr q ↦ rw q (
          outcome-Outside m _
            (relocate-Outside (r.size / r.ent) bias (wrap64 (bias + r.addr)) r.ent m))
    ]

with_dynamic-Outside :
    (fuel bias : ℕ) (m : Memory) (o : Option ℕ) → Outside m (memory_of (with_dynamic fuel bias m o))
unfolding with_dynamic
with_dynamic-Outside fuel bias m none = Outside-refl m
with_dynamic-Outside fuel bias m (some at) = elim (Bool-cases (at == 0)) [
  | inl q ↦ rw q (Outside-refl m)
  | inr q ↦ rw q (with_table-Outside bias m (read_dynamic fuel m at start_rela))
]

-- Relocation stays inside the user range.
pub relocs-Outside :
    (fuel : ℕ) (ps : List Phdr) (bias : ℕ) (m : Memory)
    → Outside m (memory_of (edge_load_relative_relocs fuel ps bias m))
unfolding edge_load_relative_relocs
relocs-Outside fuel ps bias m = with_dynamic-Outside fuel bias m (find_dynamic bias ps)
