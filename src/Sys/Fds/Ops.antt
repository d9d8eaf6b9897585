-- ===== src/Sys/Fds/Ops.antt =====
-- src/sys/syscall.c: close, dup, dup2, `fcntl` with F_DUPFD, and new descriptors for objects.
use edge_os.Prelude.{ℕ, zero, suc, Bool, false, Option, none, some, ◌==◌, if◌then◌else◌, ltb, not}
use edge_os.Prelude.Int.{ℤ, pos}
use edge_os.Sys.Errno.{fails, ebadf, enomem}
use edge_os.Sys.Objects.{FileRef, file_ref_alloc, file_ref_get}
use edge_os.Sys.Fds.{
  edge_max_fd, no_fd, put_fd, fd_at, drop_object, add_object, put_ref, release_fb, fd_proc_for_pid,
  fd_proc_with_stdio, fresh_fd, fd_alloc, fd_get, FdKind, Fd, Files,
}

-- The end of `do_sys_close`, for a descriptor that is there.
unfoldable pub close_at : ℕ → ℕ → Files → Files
close_at s f k =
    let e = fd_at k s f in
    put_fd (release_fb e (drop_object e.kind e.pipe_id (put_ref e.file_ref k))) s f no_fd

unfoldable pub close_found : ℕ → Option ℕ → Files → ℤ × Files
close_found s none k = (fails ebadf, k)
close_found s (some f) k = (pos 0, close_at s f k)

unfoldable pub close_in : Option ℕ → ℤ → Files → ℤ × Files
unfolding close_found
close_in none fd k = (fails ebadf, k)
close_in (some s) fd k = close_found s (fd_get s fd k) k

unfoldable pub do_sys_close : ℕ → ℤ → Files → ℤ × Files
unfolding close_in
do_sys_close pid fd k = close_in (fd_proc_for_pid pid k) fd k

-- A descriptor becomes a copy of `e`, with one reference more; without one it is cleared.
unfoldable pub copied : ℕ → ℕ → Fd → Files → Option (ℕ → FileRef) → ℤ × Files
copied s f e k none = (fails enomem, put_fd k s f no_fd)
copied s f e k (some refs) =
    (pos f, add_object e.kind e.pipe_id (put_fd (record k { refs = refs }) s f e))

unfoldable pub copy_fd : ℕ → ℕ → Fd → Files → ℤ × Files
unfolding copied
copy_fd s f e k = copied s f e k (file_ref_get e.file_ref k.refs)

-- The part of `do_sys_fcntl` for F_DUPFD and F_DUPFD_CLOEXEC, and `do_sys_dup`.
unfoldable pub dup_to : ℕ → Fd → Bool → Option ℕ → Files → ℤ × Files
dup_to s e cloexec none k = (fails enomem, k)
dup_to s e cloexec (some nfd) k = copy_fd s nfd (record e { cloexec = cloexec }) k

unfoldable pub dup_found : ℕ → ℕ → Bool → Option ℕ → Files → ℤ × Files
unfolding dup_to
dup_found s minfd cloexec none k = (fails ebadf, k)
dup_found s minfd cloexec (some f) k = dup_to s (fd_at k s f) cloexec (fd_alloc s minfd k) k

unfoldable pub dup_in : ℤ → ℕ → Bool → Option ℕ × Files → ℤ × Files
unfolding dup_found
dup_in fd minfd cloexec (none, k) = (fails ebadf, k)
dup_in fd minfd cloexec (some s, k) = dup_found s minfd cloexec (fd_get s fd k) k

unfoldable pub fcntl_dupfd : ℕ → ℤ → ℕ → Bool → Files → ℤ × Files
unfolding dup_in
fcntl_dupfd pid fd minfd cloexec k = dup_in fd minfd cloexec (fd_proc_with_stdio pid k)

unfoldable pub do_sys_dup : ℕ → ℤ → Files → ℤ × Files
do_sys_dup pid fd k = fcntl_dupfd pid fd 0 false k

-- The new descriptor is closed first if it is used. `do_sys_close` finds the process again.
unfoldable pub close_if_used : ℕ → ℕ → ℕ → Files → Files
close_if_used pid s f k = if (fd_at k s f).used then (do_sys_close pid (pos f) k).1 else k

unfoldable pub dup2_found : ℕ → ℕ → ℤ → Option ℕ → Files → ℤ × Files
unfolding close_if_used
dup2_found pid s (pos newfd) (some f) k =
    if not (ltb newfd edge_max_fd)
    then (fails ebadf, k)
    else if f == newfd
    then (pos newfd, k)
    else let e = fd_at k s f in
      copy_fd s newfd (record e { cloexec = false }) (close_if_used pid s newfd k)
dup2_found pid s other found k = (fails ebadf, k)

unfoldable pub dup2_in : ℕ → ℤ → ℤ → Option ℕ × Files → ℤ × Files
unfolding dup2_found
dup2_in pid oldfd newfd (none, k) = (fails ebadf, k)
dup2_in pid oldfd newfd (some s, k) = dup2_found pid s newfd (fd_get s oldfd k) k

unfoldable pub do_sys_dup2 : ℕ → ℤ → ℤ → Files → ℤ × Files
unfolding dup2_in
do_sys_dup2 pid oldfd newfd k = dup2_in pid oldfd newfd (fd_proc_with_stdio pid k)

-- A new descriptor for an object that `alloc_special_fd` is given.
unfoldable pub special_ref : ℕ → ℕ → FdKind → ℤ → ℕ → Bool → ℕ × (ℕ → FileRef) → Files → ℤ × Files
special_ref s f kind id flags cloexec (zero, refs) k = (fails enomem, put_fd k s f no_fd)
special_ref s f kind id flags cloexec (suc r, refs) k = (
  pos f,
  put_fd (record k { refs = refs }) s f
      (record fresh_fd {
        kind = kind;
        file_ref = suc r;
        flags = flags;
        cloexec = cloexec;
        pipe_id = id;
      }),
)

unfoldable pub special_at : ℕ → FdKind → ℤ → ℕ → Bool → Option ℕ → Files → ℤ × Files
unfolding special_ref
special_at s kind id flags cloexec none k = (fails enomem, k)
special_at s kind id flags cloexec (some f) k =
    special_ref s f kind id flags cloexec (file_ref_alloc k.refs) k

unfoldable pub special_in : FdKind → ℤ → ℕ → Bool → Option ℕ × Files → ℤ × Files
unfolding special_at
special_in kind id flags cloexec (none, k) = (fails enomem, k)
special_in kind id flags cloexec (some s, k) = special_at s kind id flags cloexec (fd_alloc s 0 k) k

-- `flags` are the open flags that are kept, and `cloexec` whether LINUX_O_CLOEXEC is among them.
unfoldable pub alloc_special_fd : ℕ → FdKind → ℤ → ℕ → Bool → Files → ℤ × Files
unfolding special_in
alloc_special_fd pid kind id flags cloexec k =
    special_in kind id flags cloexec (fd_proc_with_stdio pid k)
