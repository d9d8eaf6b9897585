-- ===== src/Sys/Pipe/Ends.antt =====
-- src/sys/syscall.c: what a pipe does when one of its ends is closed.
use edge_os.Prelude.{ℕ, Bool, true, ◌≡◌, refl, ap, ◌∙◌, List, [], ◌∷◌, if◌then◌else◌, arith}
use edge_os.Prelude.Int.{pos}
use edge_os.Sys.Errno.{fails, ebadf, epipe}
use edge_os.Sys.User.{Memory}
use edge_os.Sys.Pipe.{
  Pipe, no_pipe, drop_reader, drop_writer, Turn, moved, ends, wait_to_read, after_read_wait,
  pipe_read, pipe_write,
}

end_of_file :
    (nonblock : Bool) (turns : List Turn) (p : Pipe)
    → p.count ≡ 0
    → p.writers ≡ 0
    → wait_to_read nonblock turns p ≡ ends (pos 0) p
unfolding wait_to_read
end_of_file nonblock [] p c w = ground arith
end_of_file nonblock (t ∷ ts) p c w = ground arith

write-broken :
    (nonblock : Bool) (turns : List Turn) (buf len : ℕ) (m : Memory) (p : Pipe)
    → p.readers ≡ 0
    → pipe_write nonblock turns buf len m p ≡ moved (fails epipe) p m
unfolding pipe_write
write-broken nonblock turns buf len m p r = ground arith

read-ended :
    (nonblock : Bool) (turns : List Turn) (buf len : ℕ) (m : Memory) (p : Pipe)
    → p.used ≡ true
    → p.count ≡ 0
    → p.writers ≡ 0
    → pipe_read nonblock turns buf len m p ≡ moved (pos 0) p m
unfolding pipe_read
read-ended nonblock turns buf len m p u c w =
    ap
      (λ (b : Bool).
        if b
        then after_read_wait buf len m (wait_to_read nonblock turns p)
        else moved (fails ebadf) p m)
      u
    ∙ (ap (after_read_wait buf len m) (end_of_file nonblock turns p c w)
        ∙ (unfold after_read_wait in refl))

-- At an empty pipe with one reader and one writer: once the reader is gone, every write fails with
-- EPIPE and changes nothing; once the writer is gone, every read gives 0, for the end of the file,
-- and never sleeps; and once both are gone, in either order, the slot of the pipe is free and clear.
pub closed_ends :
    (nonblock : Bool) (turns : List Turn) (buf len : ℕ) (m : Memory) (p : Pipe)
    → p.used ≡ true
    → p.readers ≡ 1
    → p.writers ≡ 1
    → p.count ≡ 0
    → (pipe_write nonblock turns buf len m (drop_reader p) ≡ moved (fails epipe) (drop_reader p) m)
      × (pipe_read nonblock turns buf len m (drop_writer p) ≡ moved (pos 0) (drop_writer p) m)
      × (drop_writer (drop_reader p) ≡ no_pipe)
      × (drop_reader (drop_writer p) ≡ no_pipe)
unfolding drop_reader drop_writer
closed_ends nonblock turns buf len m p u r w c = (
  write-broken nonblock turns buf len m (drop_reader p) (ground arith),
  read-ended nonblock turns buf len m (drop_writer p) (ground arith) (ground arith) (ground arith),
  ground arith,
  ground arith,
)
