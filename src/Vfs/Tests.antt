-- ===== src/Vfs/Tests.antt =====
-- src/vfs/vfs.c: paths, mounts and permissions at small inputs.
use edge_os.Prelude.{
  ℕ, ◌≡◌, ◌<◌, refl, some, none, List, [], ◌∷◌, length, replicate, arith, if◌then◌else◌,
}
use edge_os.Prelude.Int.{pos}
use edge_os.Task.{Task, zero_task}
use edge_os.Str.Chars.{first_char, strcmp}
use edge_os.Vfs.Paths.{
  slash, dot, vfs_path_max, normalize_path, normalize_from, skip_slashes, name_of, behind_name,
  add_name, go_up, push_slash, push_chars, back_to_slash, path_text, in_tmp, normal, overruns,
  normalize_text,
}
use edge_os.Vfs.Paths.Absolute.{normalize_path-absolute}
use edge_os.Vfs.Mounts.{Superblock, vfs_find_mount}
use edge_os.Vfs.Mounts.Longest.{Chosen, vfs_find_mount-Chosen}
use edge_os.Vfs.Permission.{Inode, vfs_permission_check, eacces}
use edge_os.Vfs.Permission.Rule.{may_access, vfs_permission_check-may_access}

abbrev up : List ℕ → List ℕ
up rest = slash ∷ dot ∷ dot ∷ rest

-- "/a/b/../c/../.."
abbrev twice_up : List ℕ
twice_up = slash ∷ 97 ∷ slash ∷ 98 ∷ up (slash ∷ 99 ∷ up (up []))

-- The slash that `..` leaves behind is counted by the next one: the result is "/a/".
stays_below : normalize_path (slash ∷ []) twice_up ≡ normal (slash ∷ 97 ∷ slash ∷ [])
unfolding normalize_path normalize_from skip_slashes name_of behind_name add_name go_up push_slash
    push_chars back_to_slash path_text in_tmp normalize_text strcmp
stays_below = refl

normalize_path-absolute_example :
    (out : List ℕ) × (normalize_path (slash ∷ []) twice_up ≡ normal out)
    × (first_char out ≡ slash)
    × (length out < vfs_path_max)
normalize_path-absolute_example = normalize_path-absolute (slash ∷ []) twice_up (omega arith)

-- A current directory and a path of 128 characters each, which both fit, overrun the buffer.
overrun_test : normalize_path (slash ∷ replicate 127 97) (replicate 128 98) ≡ overruns
unfolding normalize_path path_text in_tmp strcmp
overrun_test = refl

-- "/" and "/a"
abbrev mounts : List Superblock
mounts =
    record { fs_name = []; mountpoint = slash ∷ [] }
    ∷ record { fs_name = []; mountpoint = slash ∷ 97 ∷ [] }
    ∷ []

vfs_find_mount-Chosen_example :
    Chosen
      (slash ∷ 97 ∷ slash ∷ 98 ∷ [])
      mounts
      none
      (vfs_find_mount mounts (slash ∷ 97 ∷ slash ∷ 98 ∷ []))
vfs_find_mount-Chosen_example = vfs_find_mount-Chosen mounts (slash ∷ 97 ∷ slash ∷ 98 ∷ [])

-- rw-r-----
abbrev secret : Inode
secret = record { mode = 416; uid = 1; gid = 2 }

abbrev member : Task
member = record zero_task { cred = record { uid = 7; gid = 2; euid = 7; egid = 2; umask = 18 } }

vfs_permission_check-may_access_example :
    vfs_permission_check (some secret) 6 (some member)
    ≡ (if may_access secret 6 member then pos 0 else eacces)
vfs_permission_check-may_access_example = vfs_permission_check-may_access secret 6 member
