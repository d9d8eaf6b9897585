-- ===== src/Block/Table.antt =====
-- src/block/block.c: the table of devices, in the order in which they were registered.
pub mod Lookup
use edge_os.Prelude.{
  ℕ, zero, suc, ◌+◌, ◌-◌, Option, none, some, List, [], ◌∷◌, ◌++◌, ◌==◌, if◌then◌else◌, leb, ltb,
  length, get_elem?, take, not, ◌||◌,
}
use edge_os.Prelude.Int.{ℤ, pos, neg_one, is_nonneg, to_ℕ}
use edge_os.Str.Chars.{strcmp}

-- `block_device_t`; the context and the operations are the driver's
pub record Device : Type 0 where
  pub name : List ℕ
  pub sector_size : ℕ
  pub sector_count : ℕ
  pub start_lba : ℕ
  pub driver : ℕ

abbrev pub block_max_devices : ℕ
block_max_devices = 8

abbrev pub block_name_max : ℕ
block_name_max = 16

abbrev pub Devices : Type 0
Devices = List Device

unfoldable pub block_init : Devices → Devices
block_init ds = []

-- a name is cut to what the field holds, and is empty where the caller gives none
abbrev pub stored_name : Option (List ℕ) → List ℕ
stored_name none = []
stored_name (some s) = take (block_name_max - 1) s

unfoldable pub block_register : Devices → Option (List ℕ) → ℕ → ℕ → ℕ → ℕ → ℤ × Devices
block_register ds name sector_size sector_count start_lba driver =
    let d : Device = record {
      name = stored_name name;
      sector_size = sector_size;
      sector_count = sector_count;
      start_lba = start_lba;
      driver = driver;
    } in
    if leb block_max_devices (length ds) then (neg_one, ds) else (pos (length ds), ds ++ (d ∷ []))

unfoldable pub block_get : Devices → ℤ → Option Device
block_get ds idx =
    if not (is_nonneg idx) || leb (length ds) (to_ℕ idx) then none else get_elem? ds (to_ℕ idx)

-- the pointer, as the index of the device
unfoldable pub find_from : ℕ → Devices → List ℕ → Option ℕ
find_from i [] name = none
find_from i (d ∷ ds) name =
    let rest = find_from (i + 1) ds name in if strcmp d.name name == 0 then some i else rest

unfoldable pub block_find : Devices → List ℕ → Option ℕ
block_find ds name = find_from 0 ds name

unfoldable pub block_count : Devices → ℕ
block_count ds = length ds
