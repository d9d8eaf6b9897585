-- ===== src/Vfs/Mounts.antt =====
-- src/vfs/vfs.c: the table of mounts, and the mount that a path lies under.
pub mod Longest
use edge_os.Prelude.{
  ℕ, zero, suc, Bool, ◌+◌, ◌-◌, Option, none, some, List, [], ◌∷◌, ◌++◌, ◌==◌, if◌then◌else◌, ltb,
  leb, ◌&&◌, ◌||◌, length, get_or,
}
use edge_os.Prelude.Int.{ℤ, pos, neg_one, ◌==ℤ◌}
use edge_os.Str.Chars.{strlen, strncmp, strcmp}
use edge_os.Vfs.Paths.{slash}

-- `vfs_superblock_t`, without the driver
pub record Superblock : Type 0 where
  pub fs_name : List ℕ
  pub mountpoint : List ℕ

abbrev pub vfs_max_mounts : ℕ
vfs_max_mounts = 8

unfoldable pub vfs_add_superblock : List Superblock → Superblock → ℤ × List Superblock
vfs_add_superblock mounts sb =
    if leb vfs_max_mounts (length mounts) then (neg_one, mounts) else (pos 0, mounts ++ (sb ∷ []))

-- the condition of the loop without the length: the mount point is a prefix of the path that ends
-- where a name does; the character behind the end of the path is NUL
unfoldable pub covers : List ℕ → List ℕ → Bool
covers path mp =
    let ml = strlen mp in
    (strncmp path mp ml ==ℤ pos 0)
    && ((get_or path ml 0 == 0) || (get_or path ml 0 == slash) || (ml == 1))

-- `best` and `best_len + 1`, which is 0 before the first mount is found
unfoldable pub find_mount_from :
    List ℕ → List Superblock → Option Superblock → ℕ → Option Superblock
find_mount_from path [] best longest = best
find_mount_from path (sb ∷ rest) best longest =
    let ml = strlen sb.mountpoint in
    let better = find_mount_from path rest (some sb) (ml + 1) in
    let same = find_mount_from path rest best longest in
    if leb longest ml && covers path sb.mountpoint then better else same

unfoldable pub vfs_find_mount : List Superblock → List ℕ → Option Superblock
vfs_find_mount mounts path = find_mount_from path mounts none 0
