-- ===== src/Block/Transfer.antt =====
-- src/block/block.c: `block_read_sectors` and `block_write_sectors`. The two have one loop. The
-- driver is a function of the calls that were made before, so it can answer as it likes; the
-- history of the calls, the latest first, is the state of the loop.
pub mod Tiled
use edge_os.Prelude.{
  ℕ, zero, suc, Bool, true, false, ◌+◌, ◌-◌, ◌*◌, ◌/◌, ◌%◌, Option, none, some, List, [], ◌∷◌, ◌==◌,
  if◌then◌else◌, ltb, leb, not, ◌||◌, min,
}
use edge_os.Prelude.Int.{ℤ, pos, neg_one}

-- a call of the driver that moved sectors, or failed: the first sector, their number, and the
-- offset in the buffer
pub data Attempt : Type 0 where
  moved failed : ℕ → ℕ → ℕ → Attempt

abbrev pub Driver : Type 0
Driver = List Attempt → ℕ → ℕ → ℕ → Bool

-- `uint32_t`
abbrev pub wrap : ℕ → ℕ
wrap n = n % 4294967296

-- `BLOCK_BATCH_MAX_SECTORS`
abbrev pub block_batch_max_sectors : ℕ
block_batch_max_sectors = 1024

-- `max_batch = chunk / 2; if (max_batch == 0) max_batch = 1;`
abbrev pub half_batch : ℕ → ℕ
half_batch chunk = if chunk / 2 == 0 then 1 else chunk / 2

-- The `while` loop; `none` means that the fuel ran out.
unfoldable pub transfer : ℕ → Driver → List Attempt → ℕ → ℕ → ℕ → ℕ → ℕ → Option (ℤ × List Attempt)
transfer zero io h lba count size done max_batch = none
transfer (suc fuel) io h lba count size done max_batch =
    let chunk = min (count - done) max_batch in
    let at = wrap (lba + done) in
    let off = wrap (done * size) in
    let next = transfer fuel io (moved at chunk off ∷ h) lba count size (done + chunk) max_batch in
    let retry = transfer fuel io (failed at chunk off ∷ h) lba count size done (half_batch chunk) in
    if not (ltb done count)
    then some (pos 0, h)
    else if io h at chunk off
    then next
    else if leb chunk 1
    then some (neg_one, failed at chunk off ∷ h)
    else retry

-- Every turn of the loop moves a sector or makes the batch smaller.
abbrev pub transfer_fuel : ℕ → ℕ
transfer_fuel count = count + block_batch_max_sectors + 1

-- The device, the buffer and the operation of the device are there or are NULL.
unfoldable pub block_read_sectors : Bool → Driver → ℕ → ℕ → ℕ → Option (ℤ × List Attempt)
block_read_sectors present io sector_size lba count =
    if not present || (sector_size == 0)
    then some (neg_one, [])
    else if count == 0
    then some (pos 0, [])
    else transfer (transfer_fuel count) io [] lba count sector_size 0 block_batch_max_sectors

unfoldable pub block_write_sectors : Bool → Driver → ℕ → ℕ → ℕ → Option (ℤ × List Attempt)
block_write_sectors present io sector_size lba count =
    if not present || (sector_size == 0)
    then some (neg_one, [])
    else if count == 0
    then some (pos 0, [])
    else transfer (transfer_fuel count) io [] lba count sector_size 0 block_batch_max_sectors
