-- ===== src/Vfs/Permission.antt =====
-- src/vfs/vfs.c: `vfs_permission_check`. A mask is read bit by bit: 4 asks to read, 2 to write, and
-- 1 to execute.
pub mod Rule
use edge_os.Prelude.{
  ℕ, Bool, true, false, ◌+◌, ◌*◌, ◌/◌, ◌%◌, Option, none, some, ◌==◌, if◌then◌else◌, not, ◌&&◌,
  ◌||◌,
}
use edge_os.Prelude.Int.{ℤ, pos, negsuc}
use edge_os.Task.{Task}

-- `-EACCES` and `-EINVAL`
abbrev pub eacces : ℤ
eacces = negsuc 12

abbrev pub einval : ℤ
einval = negsuc 21

-- the fields of `vfs_inode_t` that the check reads
pub record Inode : Type 0 where
  pub mode : ℕ
  pub uid : ℕ
  pub gid : ℕ

-- whether the bit of the value `b`, a power of two, is set
abbrev pub bit : ℕ → ℕ → Bool
bit b n = (n / b) % 2 == 1

-- the three bits of the class that the task belongs to
unfoldable pub class_bits : Inode → Task → ℕ
class_bits inode t =
    let mode = inode.mode % 4096 in
    if t.cred.euid == inode.uid
    then (mode / 64) % 8
    else if t.cred.egid == inode.gid
    then (mode / 8) % 8
    else mode % 8

-- `mode & 0111u`
abbrev pub any_exec : ℕ → Bool
any_exec mode = bit 1 mode || bit 8 mode || bit 64 mode

unfoldable pub vfs_permission_check : Option Inode → ℕ → Option Task → ℤ
vfs_permission_check none access_mask task = einval
vfs_permission_check (some inode) access_mask none = pos 0
vfs_permission_check (some inode) access_mask (some t) =
    let mode = inode.mode % 4096 in
    let bits = class_bits inode t in
    if t.cred.euid == 0
    then (if bit 1 access_mask && not (any_exec mode) then eacces else pos 0)
    else if bit 4 access_mask && not (bit 4 bits)
    then eacces
    else if bit 2 access_mask && not (bit 2 bits)
    then eacces
    else if bit 1 access_mask && not (bit 1 bits)
    then eacces
    else pos 0
