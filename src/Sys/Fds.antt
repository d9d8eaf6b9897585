-- ===== src/Sys/Fds.antt =====
-- src/sys/syscall.c: the descriptors of the processes. The sockets and the pseudo terminals are not
-- modelled here: the calls that change their reference counts are kept in the order they are made.
pub mod Ops
pub mod Counts
pub mod Keep
pub mod Slots
pub mod Found
pub mod Steps
pub mod Calls
pub mod Fork
pub mod Release
pub mod Clone
pub mod Single
pub mod Piped
mod Tests
use edge_os.Prelude.{
  ℕ, zero, suc, Bool, true, false, ◌+◌, ◌-◌, ◌%◌, ◌/◌, ◌*◌, Option, none, some, List, [], ◌∷◌, ◌==◌,
  if◌then◌else◌, ltb, leb, not, ◌&&◌, ◌||◌,
}
use edge_os.Prelude.Int.{ℤ, pos, neg_one}
use edge_os.Prelude.Maps.{upd}
use edge_os.Sys.Errno.{fails, ebadf, enomem, einval, efault}
use edge_os.Sys.Pipe.{
  Pipe, Pipes, no_pipe, edge_max_pipes, pipe_alloc, pipe_drop_reader, pipe_drop_writer,
}
use edge_os.Str.Chars.{strcmp}
use edge_os.Sys.Objects.{
  EventFd, eventfd_add_ref, eventfd_drop_ref, TimerFd, timerfd_add_ref, timerfd_drop_ref, SignalFd,
  signalfd_add_ref, signalfd_drop_ref, Epoll, epoll_add_ref, epoll_drop_ref, FileRef,
  file_ref_alloc, file_ref_get, file_ref_put,
}

abbrev pub edge_max_fd : ℕ
edge_max_fd = 64

abbrev pub edge_max_fd_procs : ℕ
edge_max_fd_procs = 64

-- `edge_fd_kind_t`
pub data FdKind : Type 0 where
  fd_none fd_console fd_vfs fd_pipe_r fd_pipe_w fd_socket fd_pty_master fd_pty_slave fd_eventfd :
      FdKind
  fd_timerfd fd_signalfd fd_epoll fd_pidfd : FdKind

-- `edge_fd_t`; `inode` and `sb` stand for the inode and the superblock that are carried along, and
-- the flag `cloexec` is the one bit of `fd_flags` that is used.
pub record Fd : Type 0 where
  pub used : Bool
  pub kind : FdKind
  pub file_ref : ℕ
  pub flags : ℕ
  pub cloexec : Bool
  pub at : ℕ
  pub inode : ℕ
  pub sb : ℕ
  pub path : List ℕ
  pub pipe_id : ℤ

-- `memset` of a descriptor
abbrev pub no_fd : Fd
no_fd = record {
  used = false;
  kind = fd_none;
  file_ref = 0;
  flags = 0;
  cloexec = false;
  at = 0;
  inode = 0;
  sb = 0;
  path = [];
  pipe_id = pos 0;
}

-- `edge_fd_proc_t`; the pid 0 says that the slot is free.
pub record FdProc : Type 0 where
  pub pid : ℕ
  pub fds : ℕ → Fd

abbrev pub no_proc : FdProc
no_proc = record { pid = 0; fds = λ i. no_fd }

-- A call of `socket_add_ref`, `socket_drop_ref`, `pty_add_ref` or `pty_drop_ref`, the latter with
-- whether it is for the master.
pub data Call : Type 0 where
  socket_added socket_dropped : ℤ → Call
  pty_added pty_dropped : ℤ → Bool → Call

pub record Files : Type 0 where
  pub procs : ℕ → FdProc
  pub refs : ℕ → FileRef
  pub pipes : Pipes
  pub eventfds : ℕ → EventFd
  pub timerfds : ℕ → TimerFd
  pub signalfds : ℕ → SignalFd
  pub epolls : ℕ → Epoll
  pub calls : List Call
  pub fb_console_hold_count : ℕ
  pub fb_present : Bool

-- The write of one descriptor.
unfoldable pub put_fd : Files → ℕ → ℕ → Fd → Files
put_fd k s f e = record k {
  procs = upd k.procs s (record (k.procs s) { fds = upd (k.procs s).fds f e });
}

abbrev pub fd_at : Files → ℕ → ℕ → Fd
fd_at k s f = (k.procs s).fds f

-- What a descriptor that goes away gives back.
unfoldable pub drop_object : FdKind → ℤ → Files → Files
drop_object fd_pipe_r id k = record k { pipes = pipe_drop_reader id k.pipes }
drop_object fd_pipe_w id k = record k { pipes = pipe_drop_writer id k.pipes }
drop_object fd_socket id k = record k { calls = socket_dropped id ∷ k.calls }
drop_object fd_pty_master id k = record k { calls = pty_dropped id true ∷ k.calls }
drop_object fd_pty_slave id k = record k { calls = pty_dropped id false ∷ k.calls }
drop_object fd_eventfd id k = record k { eventfds = eventfd_drop_ref id k.eventfds }
drop_object fd_timerfd id k = record k { timerfds = timerfd_drop_ref id k.timerfds }
drop_object fd_signalfd id k = record k { signalfds = signalfd_drop_ref id k.signalfds }
drop_object fd_epoll id k = record k { epolls = epoll_drop_ref id k.epolls }
drop_object other id k = k

-- `g_pipes[id].readers++`, if the id is in range
abbrev pub add_end : (Pipe → Pipe) → ℤ → Pipes → Pipes
add_end f (pos i) ps = if ltb i edge_max_pipes then upd ps i (f (ps i)) else ps
add_end f other ps = ps

-- What a descriptor that is copied takes.
unfoldable pub add_object : FdKind → ℤ → Files → Files
add_object fd_pipe_r id k = record k {
  pipes = add_end (λ p. record p { readers = p.readers + 1 }) id k.pipes;
}
add_object fd_pipe_w id k = record k {
  pipes = add_end (λ p. record p { writers = p.writers + 1 }) id k.pipes;
}
add_object fd_socket id k = record k { calls = socket_added id ∷ k.calls }
add_object fd_pty_master id k = record k { calls = pty_added id true ∷ k.calls }
add_object fd_pty_slave id k = record k { calls = pty_added id false ∷ k.calls }
add_object fd_eventfd id k = record k { eventfds = eventfd_add_ref id k.eventfds }
add_object fd_timerfd id k = record k { timerfds = timerfd_add_ref id k.timerfds }
add_object fd_signalfd id k = record k { signalfds = signalfd_add_ref id k.signalfds }
add_object fd_epoll id k = record k { epolls = epoll_add_ref id k.epolls }
add_object other id k = k

-- A descriptor's file reference is put back, and its object is dropped.
unfoldable pub put_ref : ℕ → Files → Files
put_ref id k = if ltb 0 id then record k { refs = file_ref_put id k.refs } else k

-- "/dev/fb0"
abbrev dev_fb0 : List ℕ
dev_fb0 = 47 ∷ 100 ∷ 101 ∷ 118 ∷ 47 ∷ 102 ∷ 98 ∷ 48 ∷ []

unfoldable pub is_vfs : FdKind → Bool
is_vfs fd_vfs = true
is_vfs other = false

-- The console is drawn again when the last descriptor of the frame buffer is closed.
unfoldable pub release_fb : Fd → Files → Files
unfolding is_vfs
release_fb e k =
    if (is_vfs e.kind && (strcmp e.path dev_fb0 == 0)) && ltb 0 k.fb_console_hold_count
    then record k {
      fb_console_hold_count = k.fb_console_hold_count - 1;
      fb_present = if k.fb_console_hold_count == 1 then true else k.fb_present;
    }
    else k

-- The slot of a process, or -1: the search from the slot `i` on, with `n` slots left.
unfoldable pub find_proc : ℕ → ℕ → ℕ → (ℕ → FdProc) → Option ℕ
find_proc pid i zero ps = none
find_proc pid i (suc n) ps =
    let rest = find_proc pid (i + 1) n ps in if (ps i).pid == pid then some i else rest

-- `if (!p->fds[f].used)`: the descriptor becomes the console; the flag says that no reference is left.
unfoldable pub ensure_one : ℕ → ℕ → ℕ → Files → Files × Bool
ensure_one s f flags k =
    let got = file_ref_alloc k.refs in
    if (fd_at k s f).used then (k, false) else if got.0 == 0 then (k, true) else (
      put_fd (record k { refs = got.1 }) s f
          (record (fd_at k s f) {
            used = true;
            kind = fd_console;
            file_ref = got.0;
            flags = flags;
            cloexec = false;
            pipe_id = neg_one;
          }),
      false,
    )

unfoldable pub then_ensure : ℕ → ℕ → ℕ → Files × Bool → Files × Bool
then_ensure s f flags (k, true) = (k, true)
then_ensure s f flags (k, false) = ensure_one s f flags k

unfoldable pub fd_ensure_stdio : ℕ → Files → Files
unfolding then_ensure
fd_ensure_stdio s k = (then_ensure s 2 1 (then_ensure s 1 1 (ensure_one s 0 0 k))).0

-- A new slot is cleared, and given the three standard descriptors.
unfoldable pub new_proc : ℕ → ℕ → Files → Files
new_proc pid s k =
    fd_ensure_stdio s (record k { procs = upd k.procs s (record no_proc { pid = pid }) })

unfoldable pub slot_or_new : ℕ → Option ℕ → Option ℕ → Files → Option ℕ × Files
slot_or_new pid (some s) other k = (some s, k)
slot_or_new pid none (some s) k = (some s, new_proc pid s k)
slot_or_new pid none none k = (none, k)

-- `fd_proc_for_pid(pid, 0)` and `fd_proc_for_pid(pid, 1)`
unfoldable pub fd_proc_for_pid : ℕ → Files → Option ℕ
fd_proc_for_pid pid k = find_proc pid 0 edge_max_fd_procs k.procs

unfoldable pub fd_proc_create : ℕ → Files → Option ℕ × Files
unfolding slot_or_new
fd_proc_create pid k = slot_or_new pid (fd_proc_for_pid pid k) (fd_proc_for_pid 0 k) k

unfoldable pub ensure_found : Option ℕ × Files → Option ℕ × Files
ensure_found (none, k) = (none, k)
ensure_found (some s, k) = (some s, fd_ensure_stdio s k)

unfoldable pub fd_proc_with_stdio : ℕ → Files → Option ℕ × Files
unfolding ensure_found
fd_proc_with_stdio pid k = ensure_found (fd_proc_create pid k)

-- The first free descriptor from `f` on, with `n` left; it is cleared and marked.
unfoldable pub free_fd : ℕ → ℕ → (ℕ → Fd) → Option ℕ
free_fd f zero fds = none
free_fd f (suc n) fds = let rest = free_fd (f + 1) n fds in if (fds f).used then rest else some f

abbrev pub fresh_fd : Fd
fresh_fd = record no_fd { used = true }

unfoldable pub fd_alloc : ℕ → ℕ → Files → Option ℕ
fd_alloc s minfd k = free_fd minfd (edge_max_fd - minfd) (k.procs s).fds

-- `fd_get`: the descriptor is in range and used.
unfoldable pub fd_get : ℕ → ℤ → Files → Option ℕ
fd_get s (pos f) k = if ltb f edge_max_fd && (fd_at k s f).used then some f else none
fd_get s other k = none
