-- ===== src/Block/Tests.antt =====
-- src/block/block.c: a transfer that has to be cut down, and a table of one device.
use edge_os.Prelude.{ℕ, ◌≡◌, ◌<◌, refl, true, some, none, List, [], ◌∷◌, arith, leb, length}
use edge_os.Prelude.Int.{pos}
use edge_os.Block.Transfer.{Driver, block_read_sectors, block_write_sectors}
use edge_os.Block.Transfer.Tiled.{Ends, block_sectors-Ends}
use edge_os.Block.Table.{Devices, block_find, block_get, find_from}
use edge_os.Block.Table.Lookup.{registered, device, block_register-find}
use edge_os.Str.Chars.{strcmp}

-- a driver that moves no more than four sectors at a time
abbrev four_at_most : Driver
four_at_most h at n off = leb n 4

block_sectors-Ends_example :
    Ends 100 512 9 (block_read_sectors true four_at_most 512 100 9)
    × Ends 100 512 9 (block_write_sectors true four_at_most 512 100 9)
block_sectors-Ends_example =
    block_sectors-Ends four_at_most 100 512 9 (omega arith) (omega arith) (omega arith)

-- "hd" and "fd"
abbrev hd : List ℕ
hd = 104 ∷ 100 ∷ []

abbrev fd : List ℕ
fd = 102 ∷ 100 ∷ []

abbrev one_device : Devices
one_device =
    record { name = hd; sector_size = 512; sector_count = 100; start_lba = 0; driver = 0 } ∷ []

no_fd : block_find one_device fd ≡ none
unfolding block_find find_from strcmp
no_fd = refl

block_register-find_example :
    ((registered one_device (some fd) 512 2880 0 1).0 ≡ pos 1)
    × (block_find (registered one_device (some fd) 512 2880 0 1).1 fd ≡ some 1)
    × (block_get (registered one_device (some fd) 512 2880 0 1).1 (pos 1)
        ≡ some (device one_device (some fd) 512 2880 0 1))
    × ((i : ℕ)
        → i < length one_device
        → block_get (registered one_device (some fd) 512 2880 0 1).1 (pos i)
          ≡ block_get one_device (pos i))
block_register-find_example =
    block_register-find one_device (some fd) 512 2880 0 1 (omega arith) no_fd
