-- ===== src/Sys/Fds/Fork.antt =====
-- src/sys/syscall.c: the descriptors of a process in a fork and at its end, and `do_sys_pipe`.
use edge_os.Prelude.{
  ℕ, zero, suc, Bool, ◌+◌, ◌/◌, ◌%◌, Option, none, some, ◌==◌, if◌then◌else◌, ltb, not,
}
use edge_os.Prelude.Int.{ℤ, pos}
use edge_os.Prelude.Maps.{upd}
use edge_os.Sys.Errno.{fails, enomem, einval, efault}
use edge_os.Sys.User.{user_range_ok}
use edge_os.Sys.Pipe.{Pipe, Pipes, no_pipe, pipe_alloc}
use edge_os.Sys.Objects.{FileRef, file_ref_alloc, file_ref_get, file_ref_put}
use edge_os.Sys.Fds.{
  fd_pipe_r, fd_pipe_w, Fd, no_fd, no_proc, fresh_fd, Files, put_fd, fd_at, edge_max_fd, put_ref,
  drop_object, add_object, fd_proc_for_pid, fd_proc_create, fd_proc_with_stdio, fd_alloc,
}
use edge_os.Sys.Fds.Ops.{do_sys_close}

-- The loop of `fd_proc_release` that gives back what the descriptors hold, from `f` on, with `n`
-- left.
unfoldable pub release_from : ℕ → ℕ → ℕ → Files → Files
release_from s f zero k = k
release_from s f (suc n) k =
    let e = fd_at k s f in
    release_from s (f + 1) n
      (if e.used then drop_object e.kind e.pipe_id (put_ref e.file_ref k) else k)

abbrev pub clear_proc : ℕ → Files → Files
clear_proc s k = record k { procs = upd k.procs s no_proc }

unfoldable pub release_slot : Option ℕ → Files → Files
release_slot none k = k
release_slot (some s) k = clear_proc s (release_from s 0 edge_max_fd k)

-- `fd_proc_release`, without the reset of the terminals
unfoldable pub fd_proc_release : ℕ → Files → Files
fd_proc_release pid k = release_slot (fd_proc_for_pid pid k) k

-- One descriptor of the parent, copied to the child; if its file reference is not held, the copy is
-- cleared.
unfoldable pub clone_ref : ℕ → ℕ → Fd → Option (ℕ → FileRef) → Files → Files
clone_ref c f e none k = put_fd k c f no_fd
clone_ref c f e (some refs) k =
    add_object e.kind e.pipe_id (put_fd (record k { refs = refs }) c f e)

unfoldable pub clone_one : ℕ → ℕ → Fd → Files → Files
clone_one c f e k =
    if not e.used
    then k
    else if ltb 0 e.file_ref
    then clone_ref c f e (file_ref_get e.file_ref k.refs) k
    else add_object e.kind e.pipe_id (put_fd k c f e)

unfoldable pub clone_from : ℕ → ℕ → ℕ → ℕ → Files → Files
clone_from p c f zero k = k
clone_from p c f (suc n) k = clone_from p c (f + 1) n (clone_one c f (fd_at k p f) k)

-- `memset(child->fds, 0, ...)`
abbrev pub clear_fds : ℕ → Files → Files
clear_fds c k = record k { procs = upd k.procs c (record (k.procs c) { fds = λ i. no_fd }) }

unfoldable pub clone_to : ℕ → Option ℕ × Files → Files
clone_to p (none, k) = k
clone_to p (some c, k) = clone_from p c 0 edge_max_fd (clear_fds c k)

unfoldable pub clone_slot : ℕ → Option ℕ → Files → Files
clone_slot child none k = k
clone_slot child (some p) k = clone_to p (fd_proc_create child k)

unfoldable pub fd_clone_after_fork : ℕ → ℕ → Files → Files
fd_clone_after_fork parent child k =
    if child == 0 then k else clone_slot child (fd_proc_for_pid parent k) k

-- The result of `do_sys_pipe`, and the two descriptors that are copied to the user.
pub record Piped : Type 0 where
  pub result : ℤ
  pub pair : Option (ℕ × ℕ)
  pub files : Files

abbrev no_memory : Files → Piped
no_memory k = record { result = fails enomem; pair = none; files = k }

abbrev pub drop_pipe : ℕ → Files → Files
drop_pipe id k = record k { pipes = upd k.pipes id no_pipe }

abbrev has_bit : ℕ → ℕ → Bool
has_bit flags b = flags / b % 2 == 1

abbrev nonblock_bit : ℕ → ℕ
nonblock_bit flags = if has_bit flags 0x800 then 0x800 else 0

abbrev pub both_open : Pipe → Pipe
both_open p = record p { readers = p.readers + 1; writers = p.writers + 1 }

-- Both descriptors have their reference: the ends are counted, and the pair goes to the user, or
-- both are closed again.
unfoldable pub pipe_done : ℕ → ℕ → ℕ → ℕ → ℕ → Files → Piped
pipe_done pid pipefd id rfd wfd k =
    let k' = record k { pipes = upd k.pipes id (both_open (k.pipes id)) } in
    if user_range_ok pipefd 8
    then record { result = pos 0; pair = some (rfd, wfd); files = k' }
    else record {
      result = fails efault;
      pair = none;
      files = (do_sys_close pid (pos wfd) (do_sys_close pid (pos rfd) k').1).1;
    }

-- The reference of the writing end, for a reading end that has its own.
unfoldable pub pipe_writer : ℕ → ℕ → ℕ → ℕ → ℕ → ℕ → ℕ → ℕ → ℕ × (ℕ → FileRef) → Files → Piped
pipe_writer pid s pipefd flags id rfd rref wfd (zero, refs) k = no_memory (
    drop_pipe id
      (put_fd (put_fd (record k { refs = file_ref_put rref k.refs }) s rfd no_fd) s wfd no_fd))
pipe_writer pid s pipefd flags id rfd rref wfd (suc r, refs) k = pipe_done pid pipefd id rfd wfd (
    put_fd (record k { refs = refs }) s wfd
      (record fresh_fd {
        kind = fd_pipe_w;
        file_ref = suc r;
        flags = 1 + nonblock_bit flags;
        cloexec = has_bit flags 0x80000;
        pipe_id = pos id;
      }))

unfoldable pub pipe_reader : ℕ → ℕ → ℕ → ℕ → ℕ → ℕ → ℕ → ℕ × (ℕ → FileRef) → Files → Piped
pipe_reader pid s pipefd flags id rfd wfd (zero, refs) k =
    no_memory (drop_pipe id (put_fd (put_fd k s rfd no_fd) s wfd no_fd))
pipe_reader pid s pipefd flags id rfd wfd (suc r, refs) k =
    let k' =
      put_fd (record k { refs = refs }) s rfd
        (record fresh_fd {
          kind = fd_pipe_r;
          file_ref = suc r;
          flags = nonblock_bit flags;
          cloexec = has_bit flags 0x80000;
          pipe_id = pos id;
        }) in
    pipe_writer pid s pipefd flags id rfd (suc r) wfd (file_ref_alloc k'.refs) k'

-- The descriptors are found one after the other, each marked as used.
unfoldable pub pipe_second : ℕ → ℕ → ℕ → ℕ → ℕ → ℕ → Option ℕ → Files → Piped
pipe_second pid s pipefd flags id rfd none k = no_memory (drop_pipe id (put_fd k s rfd no_fd))
pipe_second pid s pipefd flags id rfd (some wfd) k =
    pipe_reader pid s pipefd flags id rfd wfd (file_ref_alloc k.refs) (put_fd k s wfd fresh_fd)

unfoldable pub pipe_first : ℕ → ℕ → ℕ → ℕ → ℕ → Option ℕ → Files → Piped
pipe_first pid s pipefd flags id none k = no_memory (drop_pipe id k)
pipe_first pid s pipefd flags id (some rfd) k =
    let k' = put_fd k s rfd fresh_fd in pipe_second pid s pipefd flags id rfd (fd_alloc s 0 k') k'

unfoldable pub pipe_slot : ℕ → ℕ → ℕ → ℕ → Option ℕ × Pipes → Files → Piped
pipe_slot pid s pipefd flags (none, ps) k = no_memory k
pipe_slot pid s pipefd flags (some id, ps) k =
    let k' = record k { pipes = ps } in pipe_first pid s pipefd flags id (fd_alloc s 0 k') k'

unfoldable pub pipe_proc : ℕ → ℕ → ℕ → Option ℕ × Files → Piped
pipe_proc pid pipefd flags (none, k) = no_memory k
pipe_proc pid pipefd flags (some s, k) = pipe_slot pid s pipefd flags (pipe_alloc k.pipes) k

-- `flags & ~(LINUX_O_CLOEXEC | LINUX_O_NONBLOCK)`
abbrev pub other_flags : ℕ → Bool
other_flags flags =
    not (flags == nonblock_bit flags + (if has_bit flags 0x80000 then 0x80000 else 0))

unfoldable pub do_sys_pipe : ℕ → ℕ → ℕ → Files → Piped
do_sys_pipe pid pipefd flags k =
    if other_flags flags
    then record { result = fails einval; pair = none; files = k }
    else pipe_proc pid pipefd flags (fd_proc_with_stdio pid k)
