-- ===== src/Sys/Pipe/Fifo.antt =====
-- src/sys/syscall.c: a pipe is a queue of bytes.
use edge_os.Prelude.{
  ℕ, zero, suc, Bool, true, false, ◌+◌, ◌-◌, ◌≤◌, ◌<◌, ◌≡◌, inl, inr, refl, sym, ap, ◌∙◌, Option,
  none, some, List, [], ◌∷◌, ◌++◌, length, length-append, if◌then◌else◌, ◌==◌, ltb, leb, not, ◌||◌,
  min, arith, Bool-cases, subst,
}
use mathlib.Core.List.{append_assoc, append-nil}
use edge_os.Prelude.Int.{pos}
use edge_os.Sys.Errno.{fails, ebadf, efault, epipe}
use edge_os.Sys.User.{
  Memory, wrap64, user_min_addr, user_max_addr, user_range_ok, read_bytes, write_bytes,
  copy_from_user, copy_to_user,
}
use edge_os.Sys.Pipe.{
  edge_pipe_size, Pipe, push, pop, Turn, ready, wait_to_read, wait_to_write, after_read_wait,
  after_write_wait, Moved, moved, read_loop, write_loop, pipe_read, pipe_write,
}
use edge_os.Sys.Pipe.Ring.{
  contents, IsRing, push-contents, push-IsRing, pop-contents, pop-IsRing, read-write,
}

copy-ok :
    (m : Memory) (a : ℕ) (bs : List ℕ)
    → user_range_ok a (length bs) ≡ true
    → copy_to_user m a bs ≡ some (write_bytes m a bs)
unfolding copy_to_user
copy-ok m a bs h = rw h refl

range_low : (a n : ℕ) → user_range_ok a n ≡ true → wrap64 (a + 0) ≡ a
unfolding user_range_ok
range_low a n h = elim (Bool-cases (leb user_max_addr a)) [
  | inl q ↦ absurd (ground arith)
  | inr q ↦ let low : a < user_max_addr = ground arith in omega arith
]

-- The two ways a turn of the loop goes on.
flush : ℕ → ℕ → ℕ → ℕ → List ℕ → Memory → Pipe → Option Memory → Moved
flush n left buf done chunk m p none = moved (fails efault) p m
flush n left buf done chunk m p (some m') = read_loop n left buf [] (done + length chunk) m' p

read_turn :
    (n left buf done : ℕ) (chunk : List ℕ) (m : Memory) (p : Pipe)
    → read_loop n (suc left) buf chunk done m p ≡ (
        if (length (chunk ++ (p.buf p.rpos ∷ [])) == edge_pipe_size) || (left == 0)
        then flush n left buf done
            (chunk ++ (p.buf p.rpos ∷ []))
            m
            (pop p)
            (copy_to_user m (wrap64 (buf + done)) (chunk ++ (p.buf p.rpos ∷ [])))
        else read_loop n left buf (chunk ++ (p.buf p.rpos ∷ [])) done m (pop p))
unfolding read_loop flush
read_turn n left buf done chunk m p = ground arith

-- The loop of a read: all bytes are copied at once when it ends, since they are 4096 at most.
read_loop-fifo :
    (n left buf : ℕ) (chunk : List ℕ) (m : Memory) (p : Pipe)
    → IsRing p
    → length chunk + left ≡ n
    → n ≤ edge_pipe_size
    → 0 < left
    → left ≤ p.count
    → user_range_ok buf n ≡ true
    → (bs : List ℕ) × (q : Pipe) × (read_loop n left buf chunk 0 m p
        ≡ moved (pos n) q (write_bytes m buf (chunk ++ bs)))
      × (contents p ≡ bs ++ contents q)
      × (length bs ≡ left)
      × IsRing q
unfolding read_loop
read_loop-fifo n zero buf chunk m p r e small some_left enough ok = absurd (omega arith)
read_loop-fifo n (suc zero) buf chunk m p r e small some_left enough ok =
    let c = p.buf p.rpos in
    let len : length (chunk ++ (c ∷ [])) ≡ n = omega (arith, length-append chunk (c ∷ [])) in
    let range : user_range_ok buf (length (chunk ++ (c ∷ []))) ≡ true =
      subst (λ (k : ℕ). user_range_ok buf k ≡ true) (sym len) ok in
    let last : ((length (chunk ++ (c ∷ [])) == edge_pipe_size) || (◌==◌ 0 0)) ≡ true =
      ground arith in
    (
      c ∷ [],
      pop p,
      read_turn n 0 buf 0 chunk m p
          ∙ rw (last, range_low buf n ok, copy-ok m buf (chunk ++ (c ∷ [])) range)
              (unfold flush read_loop in refl),
      pop-contents p (omega arith),
      refl,
      pop-IsRing p r (omega arith),
    )
read_loop-fifo n (suc (suc left)) buf chunk m p r e small some_left enough ok =
    let c = p.buf p.rpos in
    let len = length-append chunk (c ∷ []) in
    let on : ((length (chunk ++ (c ∷ [])) == edge_pipe_size) || (suc left == 0)) ≡ false =
      ground (arith, len) in
    let (bs, q, eq, same, size, ring_q) =
      read_loop-fifo n (suc left) buf (chunk ++ (c ∷ [])) m (pop p) (pop-IsRing p r (omega arith))
        (omega (arith, len)) small (omega arith) (unfold pop in omega arith) ok in
    (
      c ∷ bs,
      q,
      read_turn n (suc left) buf 0 chunk m p
          ∙ (rw on eq
              ∙ ap (λ (l : List ℕ). moved (pos n) q (write_bytes m buf l))
                  (append_assoc chunk (c ∷ []) bs)),
      pop-contents p (omega arith) ∙ ap (λ (l : List ℕ). c ∷ l) same,
      ap suc size,
      ring_q,
    )

range_ok : (a n : ℕ) → user_min_addr ≤ a → a + n ≤ user_max_addr → 0 < n → user_range_ok a n ≡ true
unfolding user_range_ok
range_ok a n lo hi some_n =
    let t1 : ltb a user_min_addr ≡ false = ground (arith, lo) in
    let t2 : leb user_max_addr a ≡ false = ground (arith, hi, some_n) in
    let t3 : (n == 0) ≡ false = ground (arith, some_n) in
    let w : wrap64 (a + n) ≡ a + n = omega arith in
    let t4 : ltb (a + n) a ≡ false = ground arith in
    let t5 : ltb user_max_addr (a + n) ≡ false = ground (arith, hi) in
    rw (t1, t2, t3, w, t4, t5) refl

write_turn :
    (n left buf : ℕ) (m : Memory) (p : Pipe)
    → copy_from_user m buf 1 ≡ some (m buf ∷ [])
    → write_loop n (suc left) buf m p ≡ write_loop n left (wrap64 (buf + 1)) m (push (m buf) p)
unfolding write_loop
write_turn n left buf m p h =
    ap
      (λ o. elim o as (λ x. Moved) [
        | none ↦ moved (fails efault) p m
        | some bs ↦ write_loop n left (wrap64 (buf + 1)) m (push (m buf) p)
      ])
      h

one_byte :
    (m : Memory) (a : ℕ)
    → user_min_addr ≤ a
    → a + 1 ≤ user_max_addr
    → copy_from_user m a 1 ≡ some (m a ∷ [])
unfolding copy_from_user
one_byte m a lo hi = rw (range_ok a 1 lo hi (omega arith)) (unfold read_bytes in refl)

write_loop-fifo :
    (n left buf : ℕ) (m : Memory) (p : Pipe)
    → IsRing p
    → user_min_addr ≤ buf
    → buf + left ≤ user_max_addr
    → p.count + left ≤ edge_pipe_size
    → (q : Pipe) × (write_loop n left buf m p ≡ moved (pos n) q m)
      × (contents q ≡ contents p ++ read_bytes m buf left)
      × IsRing q
write_loop-fifo n zero buf m p r lo hi room =
    (p, unfold write_loop in refl, unfold read_bytes in sym (append-nil (contents p)), r)
write_loop-fifo n (suc left) buf m p r lo hi room =
    let next : wrap64 (buf + 1) ≡ buf + 1 = omega arith in
    let (q, eq, same, ring_q) =
      write_loop-fifo n left (buf + 1) m (push (m buf) p) (push-IsRing (m buf) p r (omega arith))
        (omega arith) (omega arith) (unfold push in omega arith) in
    (
      q,
      write_turn n left buf m p (one_byte m buf lo (omega arith))
          ∙ (ap (λ (a : ℕ). write_loop n left a m (push (m buf) p)) next ∙ eq),
      same
          ∙ rw (push-contents (m buf) p r (omega arith)) (
              unfold read_bytes in
              append_assoc (contents p) (m buf ∷ []) (read_bytes m (buf + 1) left)),
      ring_q,
    )

ready_to_read :
    (nonblock : Bool) (turns : List Turn) (p : Pipe)
    → 0 < p.count
    → wait_to_read nonblock turns p ≡ ready p
unfolding wait_to_read
ready_to_read nonblock [] p h = ground arith
ready_to_read nonblock (t ∷ ts) p h = ground arith

ready_to_write :
    (nonblock : Bool) (turns : List Turn) (p : Pipe)
    → p.count < edge_pipe_size
    → wait_to_write nonblock turns p ≡ ready p
unfolding wait_to_write
ready_to_write nonblock [] p h = ground arith
ready_to_write nonblock (t ∷ ts) p h = ground arith

read_now :
    (nonblock : Bool) (turns : List Turn) (buf len : ℕ) (m : Memory) (p : Pipe)
    → p.used ≡ true
    → 0 < p.count
    → pipe_read nonblock turns buf len m p
      ≡ read_loop (min len p.count) (min len p.count) buf [] 0 m p
unfolding pipe_read
read_now nonblock turns buf len m p u h =
    ap
      (λ (b : Bool).
        if b
        then after_read_wait buf len m (wait_to_read nonblock turns p)
        else moved (fails ebadf) p m)
      u
    ∙ ap (after_read_wait buf len m) (ready_to_read nonblock turns p h)

write_now :
    (nonblock : Bool) (turns : List Turn) (buf len : ℕ) (m : Memory) (p : Pipe)
    → p.used ≡ true
    → 0 < p.readers
    → p.count < edge_pipe_size
    → pipe_write nonblock turns buf len m p
      ≡ write_loop (min len (edge_pipe_size - p.count)) (min len (edge_pipe_size - p.count)) buf m p
unfolding pipe_write
write_now nonblock turns buf len m p u some_reader h =
    let open_end : (not p.used || (p.readers == 0)) ≡ false = ground (arith, u, some_reader) in
    ap
      (λ (b : Bool).
        if b
        then moved (fails epipe) p m
        else after_write_wait buf len m (wait_to_write nonblock turns p))
      open_end
    ∙ ap (after_write_wait buf len m) (ready_to_write nonblock turns p h)

-- what a read, and a write, of `n` bytes is for a queue
ReadsQueue : ℕ → ℕ → Pipe → Moved → Type 0
ReadsQueue n buf p r =
    (r.result ≡ some (pos n))
    × (contents p ≡ read_bytes r.memory buf n ++ contents r.pipe)
    × IsRing r.pipe

WritesQueue : ℕ → ℕ → Memory → Pipe → Moved → Type 0
WritesQueue n buf m p r =
    (r.result ≡ some (pos n)) × (contents r.pipe ≡ contents p ++ read_bytes m buf n) × IsRing r.pipe

reads_queue :
    (n buf : ℕ) (m : Memory) (p q : Pipe) (bs : List ℕ) (r : Moved)
    → r ≡ moved (pos n) q (write_bytes m buf ([] ++ bs))
    → contents p ≡ bs ++ contents q
    → length bs ≡ n
    → IsRing q
    → ReadsQueue n buf p r
unfolding ReadsQueue
reads_queue n buf m p q bs r e same size ring_q =
    let back : read_bytes (write_bytes m buf bs) buf n ≡ bs =
      subst (λ (k : ℕ). read_bytes (write_bytes m buf bs) buf k ≡ bs) size (read-write bs m buf) in
    rw e (refl, same ∙ ap (λ (l : List ℕ). l ++ contents q) (sym back), ring_q)

writes_queue :
    (n buf : ℕ) (m : Memory) (p q : Pipe) (r : Moved)
    → r ≡ moved (pos n) q m
    → contents q ≡ contents p ++ read_bytes m buf n
    → IsRing q
    → WritesQueue n buf m p r
unfolding WritesQueue
writes_queue n buf m p q r e same ring_q = rw e (refl, same, ring_q)

module _ (nonblock : Bool) (turns : List Turn) (buf len : ℕ) (m : Memory) (p : Pipe)
    (ring_p : IsRing p) (is_used : p.used ≡ true) (low : user_min_addr ≤ buf)
    (high : buf + len ≤ user_max_addr) (some_len : 0 < len) where
  -- A read of a pipe that holds something gives the oldest bytes, as many as there are and fit, takes
  -- just these out, and keeps the positions of the ring right.
  pub pipe_read-queue :
      0 < p.count
      → ((pipe_read nonblock turns buf len m p).result ≡ some (pos (min len p.count)))
        × (contents p
            ≡ read_bytes (pipe_read nonblock turns buf len m p).memory buf (min len p.count)
              ++ contents (pipe_read nonblock turns buf len m p).pipe)
        × IsRing (pipe_read nonblock turns buf len m p).pipe
  unfolding ReadsQueue
  pipe_read-queue some_left =
      let n = min len p.count in
      let (bs, q, eq, same, size, ring_q) =
        read_loop-fifo n n buf [] m p ring_p (omega arith) (omega (arith, ring_p.full))
          (omega arith) (omega arith) (range_ok buf n low (omega arith) (omega arith)) in
      reads_queue n buf m p q bs _ (read_now nonblock turns buf len m p is_used some_left ∙ eq) same
        size ring_q

  -- A write to a pipe with a reader and with room adds the bytes of the caller behind those that are
  -- there, as many as fit, and keeps the positions of the ring right.
  pub pipe_write-queue :
      0 < p.readers
      → p.count < edge_pipe_size
      → ((pipe_write nonblock turns buf len m p).result
          ≡ some (pos (min len (edge_pipe_size - p.count))))
        × (contents (pipe_write nonblock turns buf len m p).pipe
            ≡ contents p ++ read_bytes m buf (min len (edge_pipe_size - p.count)))
        × IsRing (pipe_write nonblock turns buf len m p).pipe
  unfolding WritesQueue
  pipe_write-queue some_reader room =
      let n = min len (edge_pipe_size - p.count) in
      let (q, eq, same, ring_q) =
        write_loop-fifo n n buf m p ring_p low (omega arith) (omega arith) in
      writes_queue n buf m p q _
        (write_now nonblock turns buf len m p is_used some_reader room ∙ eq) same ring_q
