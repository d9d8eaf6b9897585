-- ===== src/Vfs/Permission/Rule.antt =====
-- src/vfs/vfs.c: the rule that the check decides.
use edge_os.Prelude.{ℕ, Bool, ◌≡◌, ◌%◌, ◌/◌, some, arith, ◌==◌, if◌then◌else◌, not, ◌&&◌, ◌||◌}
use edge_os.Prelude.Int.{pos}
use edge_os.Task.{Task}
use edge_os.Vfs.Permission.{Inode, bit, class_bits, any_exec, vfs_permission_check, eacces}

-- Each access that is asked for is granted by the bits of the class.
abbrev granted_by : ℕ → ℕ → Bool
granted_by access bits =
    (not (bit 4 access) || bit 4 bits)
    && (not (bit 2 access) || bit 2 bits)
    && (not (bit 1 access) || bit 1 bits)

-- The access rule: the superuser may do all, but execute only what somebody may execute; another
-- user may do what the bits of the first class say that he is in, of owner, group and others.
abbrev pub may_access : Inode → ℕ → Task → Bool
may_access inode access t =
    if t.cred.euid == 0
    then not (bit 1 access) || any_exec (inode.mode % 4096)
    else granted_by access (
        if t.cred.euid == inode.uid
        then (inode.mode % 4096 / 64) % 8
        else if t.cred.egid == inode.gid
        then (inode.mode % 4096 / 8) % 8
        else inode.mode % 4096 % 8)

checks :
    (r x a b c d e f : Bool)
    → (if r
        then (if a && not x then eacces else pos 0)
        else if b && not c
        then eacces
        else if d && not e
        then eacces
        else if a && not f
        then eacces
        else pos 0)
      ≡ (if (if r then not a || x else (not b || c) && (not d || e) && (not a || f))
          then pos 0
          else eacces)
checks r x a b c d e f = ground arith

-- `vfs_permission_check` of an inode and a task returns 0 exactly where the access rule grants
-- the access, and `-EACCES` otherwise.
pub vfs_permission_check-may_access :
    (inode : Inode) (access : ℕ) (t : Task)
    → vfs_permission_check (some inode) access (some t)
      ≡ (if may_access inode access t then pos 0 else eacces)
unfolding vfs_permission_check class_bits
vfs_permission_check-may_access inode access t =
    let bits = class_bits inode t in
    checks (t.cred.euid == 0) (any_exec (inode.mode % 4096)) (bit 1 access) (bit 4 access)
      (bit 4 bits) (bit 2 access) (bit 2 bits) (bit 1 bits)
