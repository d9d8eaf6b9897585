-- ===== src/Sys/Pipe.antt =====
-- src/sys/syscall.c: pipes. A pipe is a ring of 4096 bytes; the parts of `do_sys_fd_read` and
-- `do_sys_fd_write` for the two ends of a pipe are here.
pub mod Ring
pub mod Fifo
pub mod Ends
use edge_os.Prelude.{
  ℕ, zero, suc, Bool, true, false, ◌+◌, ◌-◌, ◌%◌, Option, none, some, List, [], ◌∷◌, ◌++◌, length,
  ◌==◌, if◌then◌else◌, ltb, leb, not, ◌&&◌, ◌||◌, min,
}
use edge_os.Prelude.Int.{ℤ, pos}
use edge_os.Prelude.Maps.{upd}
use edge_os.Sys.Errno.{fails, eintr, ebadf, eagain, efault, epipe}
use edge_os.Sys.User.{Memory, wrap64, copy_from_user, copy_to_user}

abbrev pub edge_max_pipes : ℕ
edge_max_pipes = 32

abbrev pub edge_pipe_size : ℕ
edge_pipe_size = 4096

-- `edge_pipe_t`
pub record Pipe : Type 0 where
  pub used : Bool
  pub readers : ℕ
  pub writers : ℕ
  pub rpos : ℕ
  pub wpos : ℕ
  pub count : ℕ
  pub buf : ℕ → ℕ

-- `memset(&g_pipes[i], 0, ...)`
abbrev pub no_pipe : Pipe
no_pipe = record {
  used = false;
  readers = 0;
  writers = 0;
  rpos = 0;
  wpos = 0;
  count = 0;
  buf = λ i. 0;
}

-- `g_pipes`
abbrev pub Pipes : Type 0
Pipes = ℕ → Pipe

-- The search for a free slot from `i` on, with `n` slots left; the result `none` is -1.
unfoldable pub pipe_alloc_from : ℕ → ℕ → Pipes → Option ℕ × Pipes
pipe_alloc_from i zero ps = (none, ps)
pipe_alloc_from i (suc n) ps =
    let rest = pipe_alloc_from (i + 1) n ps in
    if (ps i).used then rest else (some i, upd ps i (record no_pipe { used = true }))

unfoldable pub pipe_alloc : Pipes → Option ℕ × Pipes
pipe_alloc ps = pipe_alloc_from 0 edge_max_pipes ps

-- A pipe with no end left is free again.
abbrev pub settle : Pipe → Pipe
settle p = if (p.readers == 0) && (p.writers == 0) then no_pipe else p

unfoldable pub drop_reader : Pipe → Pipe
drop_reader p = if p.used then settle (record p { readers = p.readers - 1 }) else p

unfoldable pub drop_writer : Pipe → Pipe
drop_writer p = if p.used then settle (record p { writers = p.writers - 1 }) else p

-- An id is checked against the table first.
unfoldable pub at_id : (Pipe → Pipe) → ℤ → Pipes → Pipes
at_id f (pos i) ps = if ltb i edge_max_pipes then upd ps i (f (ps i)) else ps
at_id f other ps = ps

unfoldable pub pipe_drop_reader : ℤ → Pipes → Pipes
pipe_drop_reader id ps = at_id drop_reader id ps

unfoldable pub pipe_drop_writer : ℤ → Pipes → Pipes
pipe_drop_writer id ps = at_id drop_writer id ps

-- `pp->buf[pp->wpos] = c; pp->wpos = (pp->wpos + 1) % EDGE_PIPE_SIZE; pp->count++;` and the other way
unfoldable pub push : ℕ → Pipe → Pipe
push c p = record p {
  buf = upd p.buf p.wpos c;
  wpos = (p.wpos + 1) % edge_pipe_size;
  count = p.count + 1;
}

unfoldable pub pop : Pipe → Pipe
pop p = record p { rpos = (p.rpos + 1) % edge_pipe_size; count = p.count - 1 }

-- One turn of a loop that waits: whether a signal is pending, and what the other processes make of
-- the pipe while the caller sleeps.
pub record Turn : Type 0 where
  pub signal : Bool
  pub others : Pipe → Pipe

-- What a wait comes to: the pipe is ready, the call ends with a result, or the caller still sleeps
-- when the turns are over.
pub data Wait : Type 0 where
  ready asleep : Pipe → Wait
  ends : ℤ → Pipe → Wait

unfoldable pub wait_to_read : Bool → List Turn → Pipe → Wait
wait_to_read nonblock [] p =
    if not (p.count == 0)
    then ready p
    else if p.writers == 0
    then ends (pos 0) p
    else if nonblock
    then ends (fails eagain) p
    else asleep p
wait_to_read nonblock (t ∷ ts) p =
    let later = wait_to_read nonblock ts (t.others p) in
    if not (p.count == 0)
    then ready p
    else if p.writers == 0
    then ends (pos 0) p
    else if nonblock
    then ends (fails eagain) p
    else if t.signal
    then ends (fails eintr) p
    else later

unfoldable pub wait_to_write : Bool → List Turn → Pipe → Wait
wait_to_write nonblock [] p =
    if ltb p.count edge_pipe_size
    then ready p
    else if p.readers == 0
    then ends (fails epipe) p
    else if nonblock
    then ends (fails eagain) p
    else asleep p
wait_to_write nonblock (t ∷ ts) p =
    let later = wait_to_write nonblock ts (t.others p) in
    if ltb p.count edge_pipe_size
    then ready p
    else if p.readers == 0
    then ends (fails epipe) p
    else if nonblock
    then ends (fails eagain) p
    else if t.signal
    then ends (fails eintr) p
    else later

-- The result of a call, `none` while it sleeps; the pipe; user memory.
pub record Moved : Type 0 where
  pub result : Option ℤ
  pub pipe : Pipe
  pub memory : Memory

abbrev pub moved : ℤ → Pipe → Memory → Moved
moved r p m = record { result = some r; pipe = p; memory = m }

-- The loop that takes bytes out, `left` more of the `n`; `chunk` waits to be copied to `buf + done`,
-- and is when it has 4096 bytes or the loop ends.
unfoldable pub read_loop : ℕ → ℕ → ℕ → List ℕ → ℕ → Memory → Pipe → Moved
read_loop n zero buf chunk done m p = moved (pos n) p m
read_loop n (suc left) buf chunk done m p =
    let chunk' = chunk ++ (p.buf p.rpos ∷ []) in
    elim ((length chunk' == edge_pipe_size) || (left == 0)) [
      | true ↦ elim (copy_to_user m (wrap64 (buf + done)) chunk') [
        | none ↦ moved (fails efault) (pop p) m
        | some m' ↦ read_loop n left buf [] (done + length chunk') m' (pop p)
      ]
      | false ↦ read_loop n left buf chunk' done m (pop p)
    ]

unfoldable pub after_read_wait : ℕ → ℕ → Memory → Wait → Moved
after_read_wait buf len m (asleep p) = record { result = none; pipe = p; memory = m }
after_read_wait buf len m (ends r p) = moved r p m
after_read_wait buf len m (ready p) = read_loop (min len p.count) (min len p.count) buf [] 0 m p

-- `do_sys_fd_read` for a reading end
unfoldable pub pipe_read : Bool → List Turn → ℕ → ℕ → Memory → Pipe → Moved
unfolding after_read_wait
pipe_read nonblock turns buf len m p =
    if p.used
    then after_read_wait buf len m (wait_to_read nonblock turns p)
    else moved (fails ebadf) p m

-- The loop that puts bytes in; each is read from user memory by itself.
unfoldable pub write_loop : ℕ → ℕ → ℕ → Memory → Pipe → Moved
write_loop n zero buf m p = moved (pos n) p m
write_loop n (suc left) buf m p = elim (copy_from_user m buf 1) [
  | none ↦ moved (fails efault) p m
  | some bs ↦ write_loop n left (wrap64 (buf + 1)) m (push (m buf) p)
]

unfoldable pub after_write_wait : ℕ → ℕ → Memory → Wait → Moved
after_write_wait buf len m (asleep p) = record { result = none; pipe = p; memory = m }
after_write_wait buf len m (ends r p) = moved r p m
after_write_wait buf len m (ready p) =
    write_loop (min len (edge_pipe_size - p.count)) (min len (edge_pipe_size - p.count)) buf m p

-- `do_sys_fd_write` for a writing end
unfoldable pub pipe_write : Bool → List Turn → ℕ → ℕ → Memory → Pipe → Moved
unfolding after_write_wait
pipe_write nonblock turns buf len m p =
    if not p.used || (p.readers == 0)
    then moved (fails epipe) p m
    else after_write_wait buf len m (wait_to_write nonblock turns p)
