-- ===== src/Block.antt =====
-- src/block/block.c: the table of block devices, and the transfer of sectors in batches.
pub mod Transfer
pub mod Table
mod Tests
