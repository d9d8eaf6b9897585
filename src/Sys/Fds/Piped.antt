-- ===== src/Sys/Fds/Piped.antt =====
-- src/sys/syscall.c: `do_sys_pipe` keeps the counts of the file references right.
use edge_os.Prelude.{
  ℕ, zero, suc, true, false, ◌<◌, ◌≡◌, ◌≢◌, refl, sym, ap, ◌∙◌, Option, none, some, arith,
  Bool-cases, inl, inr,
}
use edge_os.Prelude.Int.{pos}
use edge_os.Prelude.Maps.{upd}
use edge_os.Sys.User.{user_range_ok}
use edge_os.Sys.Objects.{FileRef, file_ref_alloc, file_ref_put}
use edge_os.Sys.Pipe.{Pipes, pipe_alloc}
use edge_os.Sys.Fds.{
  Fd, FdProc, no_fd, fresh_fd, Files, put_fd, fd_at, edge_max_fd, fd_alloc, fd_proc_for_pid,
}
use edge_os.Sys.Fds.Counts.{
  is_ref, holds_ref, put-count, put-refs, put-Idle, Allocated, alloc-Allocated,
}
use edge_os.Sys.Fds.Keep.{Counted, same-Counted, settle, put_pid, put_at, used_holds, unused_holds}
use edge_os.Sys.Fds.Slots.{At}
use edge_os.Sys.Fds.Found.{put-first, fd_alloc-found}
use edge_os.Sys.Fds.Steps.{pid_live}
use edge_os.Sys.Fds.Single.{Found, close-Counted, with_stdio-Found}
use edge_os.Sys.Fds.Clone.{put_other}
use edge_os.Sys.Fds.Fork.{
  drop_pipe, both_open, other_flags, pipe_done, pipe_writer, pipe_reader, pipe_second, pipe_first,
  pipe_slot, pipe_proc, do_sys_pipe,
}

module _ (extra : ℕ → ℕ) (pid : ℕ) (live : pid ≢ 0) (s : ℕ) where
  -- A descriptor that holds no reference.
  abbrev Bare : ℕ → Files → Type 0
  Bare f k = (id : ℕ) → 0 < id → holds_ref id (fd_at k s f) ≡ 0

  unused-Bare : (f : ℕ) (k : Files) → (fd_at k s f).used ≡ false → Bare f k
  unused-Bare f k u id lo = unused_holds id (fd_at k s f) u

  put_fresh-Bare : (f : ℕ) (k : Files) → Bare f (put_fd k s f fresh_fd)
  put_fresh-Bare f k id lo = ap (holds_ref id) (put_at s f fresh_fd k) ∙ ground arith

  put_other-Bare : (f g : ℕ) (e : Fd) (k : Files) → g ≢ f → Bare g k → Bare g (put_fd k s f e)
  put_other-Bare f g e k ne b id lo = ap (holds_ref id) (put_other s f g e k ne) ∙ b id lo

  wrote-At :
      (f : ℕ) (e : Fd) (k k' : Files)
      → k'.procs ≡ k.procs
      → Counted extra (put_fd k' s f e)
      → At extra pid s k
      → At extra pid s (put_fd k' s f e)
  wrote-At f e k k' same c a = record {
    counted = c;
    in_procs = a.in_procs;
    pid_is = put_pid s f s e k' ∙ (ap (λ (ps : ℕ → FdProc). (ps s).pid) same ∙ a.pid_is);
    first = put-first pid s f e k k' same ∙ a.first;
  }

  -- A descriptor that holds none is written with none, or with a new one.
  put_none-At :
      (f : ℕ) (e : Fd) (k : Files)
      → f < edge_max_fd
      → Bare f k
      → ((id : ℕ) → 0 < id → holds_ref id e ≡ 0)
      → At extra pid s k
      → At extra pid s (put_fd k s f e)
  put_none-At f e k in_fds b none_in a =
      wrote-At f e k k refl
        (settle k k s f e a.in_procs in_fds (pid_live pid live s k a) a.counted refl
          a.counted.unused
          (λ id lo hi. omega (arith, a.counted.counts id lo hi, b id lo, none_in id lo)))
        a

  put_new-At :
      (f r : ℕ) (refs : ℕ → FileRef) (e : Fd) (k : Files)
      → f < edge_max_fd
      → Bare f k
      → Allocated k.refs r refs
      → e.used ≡ true
      → e.file_ref ≡ r
      → At extra pid s k
      → At extra pid s (put_fd (record k { refs = refs }) s f e)
  put_new-At f r refs e k in_fds b got u eq a =
      wrote-At f e k (record k { refs = refs }) refl
        (settle k (record k { refs = refs }) s f e a.in_procs in_fds (pid_live pid live s k a)
          a.counted refl got.still_Idle
          (λ id lo hi. omega (
            arith,
            got.counted id lo,
            a.counted.counts id lo hi,
            b id lo,
            used_holds id e u,
            ap (λ (x : ℕ). is_ref x id) eq,
          )))
        a

  -- A descriptor goes away, and its reference is put back.
  put_back-At :
      (f r : ℕ) (k : Files)
      → f < edge_max_fd
      → (fd_at k s f).used ≡ true
      → (fd_at k s f).file_ref ≡ r
      → At extra pid s k
      → At extra pid s (put_fd (record k { refs = file_ref_put r k.refs }) s f no_fd)
  put_back-At f r k in_fds u eq a =
      let k' = record k { refs = file_ref_put r k.refs } in
      wrote-At f no_fd k k' refl
        (settle k k' s f no_fd a.in_procs in_fds (pid_live pid live s k a) a.counted refl
          (put-Idle r k.refs a.counted.unused)
          (λ id lo hi. omega (
            arith,
            put-refs r id k.refs a.counted.unused lo hi,
            a.counted.counts id lo hi,
            used_holds id (fd_at k s f) u,
            ap (λ (x : ℕ). is_ref x id) eq,
            put-count id s f no_fd k a.in_procs in_fds,
          )))
        a

  none_in_no_fd : (id : ℕ) → 0 < id → holds_ref id no_fd ≡ 0
  none_in_no_fd id lo = refl

  none_in_fresh : (id : ℕ) → 0 < id → holds_ref id fresh_fd ≡ 0
  none_in_fresh id lo = ground arith

  drop_pipe-Counted : (id : ℕ) (k : Files) → Counted extra k → Counted extra (drop_pipe id k)
  drop_pipe-Counted id k c =
      same-Counted k (drop_pipe id k) (record { same_procs = refl; same_refs = refl }) c

  pipe_done-Counted :
      (pipefd id rfd wfd : ℕ) (k : Files)
      → Counted extra k
      → Counted extra (pipe_done pid pipefd id rfd wfd k).files
  unfolding pipe_done
  pipe_done-Counted pipefd id rfd wfd k c =
      let k' = record k { pipes = upd k.pipes id (both_open (k.pipes id)) } in
      let c' : Counted extra k' =
        same-Counted k k' (record { same_procs = refl; same_refs = refl }) c in
      elim (Bool-cases (user_range_ok pipefd 8)) [
        | inl q ↦ rw q c'
        | inr q ↦ rw q (
            close-Counted extra pid live (pos wfd) _ (close-Counted extra pid live (pos rfd) k' c'))
      ]

  pipe_writer-Counted :
      (pipefd flags id rfd rref wfd : ℕ) (r : ℕ × (ℕ → FileRef)) (k : Files)
      → Allocated k.refs r.0 r.1
      → rfd < edge_max_fd
      → wfd < edge_max_fd
      → wfd ≢ rfd
      → (fd_at k s rfd).used ≡ true
      → (fd_at k s rfd).file_ref ≡ rref
      → Bare wfd k
      → At extra pid s k
      → Counted extra (pipe_writer pid s pipefd flags id rfd rref wfd r k).files
  unfolding pipe_writer
  pipe_writer-Counted pipefd flags id rfd rref wfd (zero, refs) k got r_in w_in ne u eq b a =
      let k' = record k { refs = file_ref_put rref k.refs } in
      drop_pipe-Counted id _ (
        (put_none-At wfd no_fd (put_fd k' s rfd no_fd) w_in (put_other-Bare rfd wfd no_fd k' ne b)
          none_in_no_fd (put_back-At rfd rref k r_in u eq a)).counted)
  pipe_writer-Counted pipefd flags id rfd rref wfd (suc r, refs) k got r_in w_in ne u eq b a =
      pipe_done-Counted pipefd id rfd wfd _
        ((put_new-At wfd (suc r) refs _ k w_in b got refl refl a).counted)

  pipe_reader-Counted :
      (pipefd flags id rfd wfd : ℕ) (r : ℕ × (ℕ → FileRef)) (k : Files)
      → Allocated k.refs r.0 r.1
      → rfd < edge_max_fd
      → wfd < edge_max_fd
      → wfd ≢ rfd
      → Bare rfd k
      → Bare wfd k
      → At extra pid s k
      → Counted extra (pipe_reader pid s pipefd flags id rfd wfd r k).files
  unfolding pipe_reader
  pipe_reader-Counted pipefd flags id rfd wfd (zero, refs) k got r_in w_in ne b b' a =
      drop_pipe-Counted id _ (
        (put_none-At wfd no_fd (put_fd k s rfd no_fd) w_in (put_other-Bare rfd wfd no_fd k ne b')
          none_in_no_fd (put_none-At rfd no_fd k r_in b none_in_no_fd a)).counted)
  pipe_reader-Counted pipefd flags id rfd wfd (suc r, refs) k got r_in w_in ne b b' a =
      let k1 = record k { refs = refs } in
      let a' = put_new-At rfd (suc r) refs _ k r_in b got refl refl a in
      pipe_writer-Counted pipefd flags id rfd (suc r) wfd _ _ (alloc-Allocated _ a'.counted.unused)
        r_in w_in ne (ap (λ (x : Fd). x.used) (put_at s rfd _ k1))
        (ap (λ (x : Fd). x.file_ref) (put_at s rfd _ k1)) (put_other-Bare rfd wfd _ k1 ne b') a'

  pipe_second-Counted :
      (pipefd flags id rfd : ℕ) (o : Option ℕ) (k : Files)
      → fd_alloc s 0 k ≡ o
      → rfd < edge_max_fd
      → (fd_at k s rfd).used ≡ true
      → Bare rfd k
      → At extra pid s k
      → Counted extra (pipe_second pid s pipefd flags id rfd o k).files
  unfolding pipe_second put_fd file_ref_alloc
  pipe_second-Counted pipefd flags id rfd none k h r_in u b a =
      drop_pipe-Counted id _ (put_none-At rfd no_fd k r_in b none_in_no_fd a).counted
  pipe_second-Counted pipefd flags id rfd (some wfd) k h r_in u b a =
      let w = fd_alloc-found s 0 wfd k h in
      let ne : wfd ≢ rfd = λ q. absurd (let t = ap (λ (f : ℕ). (fd_at k s f).used) q in cc) in
      pipe_reader-Counted pipefd flags id rfd wfd _ (put_fd k s wfd fresh_fd)
        (alloc-Allocated _ a.counted.unused) r_in w.0 ne
        (put_other-Bare wfd rfd fresh_fd k (λ q. ne (sym q)) b) (put_fresh-Bare wfd k)
        (put_none-At wfd fresh_fd k w.0 (unused-Bare wfd k w.1) none_in_fresh a)

  pipe_first-Counted :
      (pipefd flags id : ℕ) (o : Option ℕ) (k : Files)
      → fd_alloc s 0 k ≡ o
      → At extra pid s k
      → Counted extra (pipe_first pid s pipefd flags id o k).files
  unfolding pipe_first
  pipe_first-Counted pipefd flags id none k h a = drop_pipe-Counted id k a.counted
  pipe_first-Counted pipefd flags id (some rfd) k h a =
      let r = fd_alloc-found s 0 rfd k h in
      pipe_second-Counted pipefd flags id rfd _ (put_fd k s rfd fresh_fd) refl r.0
        (ap (λ (x : Fd). x.used) (put_at s rfd fresh_fd k)) (put_fresh-Bare rfd k)
        (put_none-At rfd fresh_fd k r.0 (unused-Bare rfd k r.1) none_in_fresh a)

  pipe_slot-Counted :
      (pipefd flags : ℕ) (r : Option ℕ × Pipes) (k : Files)
      → At extra pid s k
      → Counted extra (pipe_slot pid s pipefd flags r k).files
  unfolding pipe_slot fd_proc_for_pid
  pipe_slot-Counted pipefd flags (none, ps) k a = a.counted
  pipe_slot-Counted pipefd flags (some id, ps) k a =
      let k' = record k { pipes = ps } in
      pipe_first-Counted pipefd flags id _ k' refl (record {
        counted = same-Counted k k' (record { same_procs = refl; same_refs = refl }) a.counted;
        in_procs = a.in_procs;
        pid_is = a.pid_is;
        first = a.first;
      })

pipe_proc-Counted :
    (extra : ℕ → ℕ) (pid pipefd flags : ℕ) (r : Option ℕ × Files)
    → pid ≢ 0
    → Found extra pid r
    → Counted extra (pipe_proc pid pipefd flags r).files
unfolding pipe_proc
pipe_proc-Counted extra pid pipefd flags (none, k) live c = c
pipe_proc-Counted extra pid pipefd flags (some s, k) live a =
    pipe_slot-Counted extra pid live s pipefd flags (pipe_alloc k.pipes) k a

pub pipe-Counted :
    (extra : ℕ → ℕ) (pid pipefd flags : ℕ) (k : Files)
    → pid ≢ 0
    → Counted extra k
    → Counted extra (do_sys_pipe pid pipefd flags k).files
unfolding do_sys_pipe
pipe-Counted extra pid pipefd flags k live c = elim (Bool-cases (other_flags flags)) [
  | inl q ↦ rw q c
  | inr q ↦
      rw q (pipe_proc-Counted extra pid pipefd flags _ live (with_stdio-Found extra pid live k c))
]
