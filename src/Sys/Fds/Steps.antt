-- ===== src/Sys/Fds/Steps.antt =====
-- src/sys/syscall.c: the steps of the calls on descriptors, for a process with a slot.
use edge_os.Prelude.{
  ℕ, zero, suc, Bool, true, false, ◌<◌, ◌≡◌, ◌≢◌, refl, sym, ap, ◌∙◌, Option, none, some, ◌==◌, ltb,
  not, arith, Bool-cases, subst, inl, inr, ℕ_discrete,
}
use edge_os.Prelude.Int.{ℤ, pos, negsuc}
use edge_os.Prelude.Maps.{upd_self, upd_ne}
use edge_os.Sys.Objects.{FileRef, file_ref_alloc}
use edge_os.Sys.Fds.{
  FdKind, Fd, FdProc, no_fd, no_proc, Files, fd_at, edge_max_fd, edge_max_fd_procs, ensure_one,
  then_ensure, fd_ensure_stdio, new_proc, fd_proc_for_pid, fd_alloc, fd_get,
}
use edge_os.Sys.Fds.Ops.{
  close_found, dup_to, dup_found, close_if_used, dup2_found, special_ref, special_at,
}
use edge_os.Sys.Fds.Counts.{procs-change, none_held, Allocated, alloc-Allocated}
use edge_os.Sys.Fds.Keep.{
  Counted, close_at-Counted, close_at-pid, close_at-free, put_pid, copy_fd-Counted, fresh-Counted,
  cleared-Counted,
}
use edge_os.Sys.Fds.Slots.{At, find-only, find-none}
use edge_os.Sys.Fds.Found.{put-first, taken, fd_get-found, fd_alloc-found, close-is, close_at-first}

module _ {extra : ℕ → ℕ} (pid : ℕ) (live : pid ≢ 0) (s : ℕ) where
  pub pid_live : (k : Files) → At extra pid s k → (k.procs s).pid ≢ 0
  pid_live k a e = live (sym a.pid_is ∙ e)

  pub ensure_one-At :
      (f flags : ℕ) (k : Files)
      → f < edge_max_fd
      → At extra pid s k
      → At extra pid s (ensure_one s f flags k).0
  unfolding ensure_one
  ensure_one-At f flags k in_fds a = elim (Bool-cases (fd_at k s f).used) [
    | inl u ↦ rw u a
    | inr u ↦ elim (Bool-cases ((file_ref_alloc k.refs).0 == 0)) [
      | inl z ↦ rw (u, z) a
      | inr z ↦
          rw (u, z)
            (record {
              counted =
                  fresh-Counted s f k a.in_procs in_fds (pid_live k a) u a.counted
                    (file_ref_alloc k.refs).0 (file_ref_alloc k.refs).1 _
                    (alloc-Allocated k.refs a.counted.unused) refl refl;
              in_procs = a.in_procs;
              pid_is = put_pid s f s _ _ ∙ a.pid_is;
              first =
                  put-first pid s f _ k (record k { refs = (file_ref_alloc k.refs).1 }) refl
                  ∙ a.first;
            })
    ]
  ]

  pub then_ensure-At :
      (f flags : ℕ) (r : Files × Bool)
      → f < edge_max_fd
      → At extra pid s r.0
      → At extra pid s (then_ensure s f flags r).0
  unfolding then_ensure
  then_ensure-At f flags (k, true) in_fds a = a
  then_ensure-At f flags (k, false) in_fds a = ensure_one-At f flags k in_fds a

  pub ensure_stdio-At : (k : Files) → At extra pid s k → At extra pid s (fd_ensure_stdio s k)
  unfolding fd_ensure_stdio
  ensure_stdio-At k a =
      then_ensure-At 2 1 _ (omega arith)
        (then_ensure-At 1 1 _ (omega arith) (ensure_one-At 0 0 k (omega arith) a))

  pub taken-At :
      (k : Files)
      → s < edge_max_fd_procs
      → (k.procs s).pid ≡ 0
      → fd_proc_for_pid pid k ≡ none
      → Counted extra k
      → At extra pid s (taken pid s k)
  unfolding taken fd_proc_for_pid
  taken-At k in_procs free new c = record {
    counted = record {
      counts = λ id lo hi. omega (
        arith,
        c.counts id lo hi,
        procs-change id s (record no_proc { pid = pid }) k.procs in_procs,
        none_held id (k.procs s).fds (λ f. c.vacant s f free),
        none_held id (λ f. no_fd) (λ f. refl),
      );
      unused = c.unused;
      vacant = λ s' f h. elim (ℕ_discrete s' s) [
        | yes q ↦ absurd (live (ground (arith, q)))
        | no q ↦
            let other = upd_ne k.procs s (record no_proc { pid = pid }) s' q in
            subst (λ (x : FdProc). x.pid ≡ 0 → (x.fds f).used ≡ false) (sym other) (c.vacant s' f) h
      ];
    };
    in_procs = in_procs;
    pid_is = ap (λ (x : FdProc). x.pid) (upd_self k.procs s (record no_proc { pid = pid }));
    first =
        find-only pid 0 edge_max_fd_procs s _ (omega arith) (omega arith)
          (ap (λ (x : FdProc). x.pid) (upd_self k.procs s (record no_proc { pid = pid })))
          (λ j ne e lo hi. find-none pid 0 edge_max_fd_procs k.procs new j lo hi (
            sym (ap (λ (x : FdProc). x.pid) (upd_ne k.procs s (record no_proc { pid = pid }) j ne))
            ∙ e));
  }

  pub new_proc-At :
      (k : Files)
      → s < edge_max_fd_procs
      → (k.procs s).pid ≡ 0
      → fd_proc_for_pid pid k ≡ none
      → Counted extra k
      → At extra pid s (new_proc pid s k)
  unfolding new_proc taken
  new_proc-At k in_procs free new c =
      ensure_stdio-At (taken pid s k) (taken-At k in_procs free new c)

  -- A descriptor of the process is closed, or becomes a copy.
  pub close_found-At :
      (fd : ℤ) (k : Files) (o : Option ℕ)
      → fd_get s fd k ≡ o
      → At extra pid s k
      → Counted extra (close_found s o k).1
  unfolding close_found
  close_found-At fd k none h a = a.counted
  close_found-At fd k (some f) h a =
      let r = fd_get-found s fd f k h in
      close_at-Counted s f k a.in_procs r.0 (pid_live k a) r.1 a.counted

  pub close_if_used-At :
      (f : ℕ) (k : Files)
      → f < edge_max_fd
      → At extra pid s k
      → At extra pid s (close_if_used pid s f k)
        × ((fd_at (close_if_used pid s f k) s f).used ≡ false)
  unfolding close_if_used
  close_if_used-At f k in_fds a = elim (Bool-cases (fd_at k s f).used) [
    | inl u ↦
        let closed = ap (λ (r : ℤ × Files). r.1) (close-is pid s f k in_fds u a.first) in
        rw (u, closed)
          (
            record {
              counted = close_at-Counted s f k a.in_procs in_fds (pid_live k a) u a.counted;
              in_procs = a.in_procs;
              pid_is = close_at-pid s f s k ∙ a.pid_is;
              first = close_at-first pid s f k ∙ a.first;
            },
            close_at-free s f k,
          )
    | inr u ↦ rw u (a, u)
  ]

  pub dup_to-Counted :
      (e : Fd) (cloexec : Bool) (k : Files) (minfd : ℕ) (o : Option ℕ)
      → fd_alloc s minfd k ≡ o
      → e.used ≡ true
      → At extra pid s k
      → Counted extra (dup_to s e cloexec o k).1
  unfolding dup_to
  dup_to-Counted e cloexec k minfd none h u a = a.counted
  dup_to-Counted e cloexec k minfd (some nfd) h u a =
      let r = fd_alloc-found s minfd nfd k h in
      copy_fd-Counted s nfd (record e { cloexec = cloexec }) k a.in_procs r.0 (pid_live k a) r.1 u
        a.counted

  pub dup_found-Counted :
      (fd : ℤ) (minfd : ℕ) (cloexec : Bool) (k : Files) (o : Option ℕ)
      → fd_get s fd k ≡ o
      → At extra pid s k
      → Counted extra (dup_found s minfd cloexec o k).1
  unfolding dup_found
  dup_found-Counted fd minfd cloexec k none h a = a.counted
  dup_found-Counted fd minfd cloexec k (some f) h a =
      dup_to-Counted (fd_at k s f) cloexec k minfd _ refl (fd_get-found s fd f k h).1 a

  pub special_ref-Counted :
      (f : ℕ) (kind : FdKind) (id : ℤ) (flags : ℕ) (cloexec : Bool)
      → (r : ℕ × (ℕ → FileRef)) (k : Files) → Allocated k.refs r.0 r.1
      → f < edge_max_fd
      → (fd_at k s f).used ≡ false
      → At extra pid s k
      → Counted extra (special_ref s f kind id flags cloexec r k).1
  unfolding special_ref
  special_ref-Counted f kind id flags cloexec (zero, refs) k got in_fds free a =
      cleared-Counted s f k a.in_procs in_fds (pid_live k a) free a.counted
  special_ref-Counted f kind id flags cloexec (suc r, refs) k got in_fds free a =
      fresh-Counted s f k a.in_procs in_fds (pid_live k a) free a.counted (suc r) refs _ got refl
        refl

  pub special_at-Counted :
      (kind : FdKind) (id : ℤ) (flags : ℕ) (cloexec : Bool) (k : Files) (o : Option ℕ)
      → fd_alloc s 0 k ≡ o
      → At extra pid s k
      → Counted extra (special_at s kind id flags cloexec o k).1
  unfolding special_at
  special_at-Counted kind id flags cloexec k none h a = a.counted
  special_at-Counted kind id flags cloexec k (some f) h a =
      let r = fd_alloc-found s 0 f k h in
      special_ref-Counted f kind id flags cloexec (file_ref_alloc k.refs) k
        (alloc-Allocated k.refs a.counted.unused) r.0 r.1 a

  pub dup2_found-Counted :
      (oldfd newfd : ℤ) (k : Files) (o : Option ℕ)
      → fd_get s oldfd k ≡ o
      → At extra pid s k
      → Counted extra (dup2_found pid s newfd o k).1
  unfolding dup2_found
  dup2_found-Counted oldfd (pos newfd) k (some f) h a =
      elim (Bool-cases (not (ltb newfd edge_max_fd))) [
        | inl q ↦ rw q a.counted
        | inr q ↦ elim (Bool-cases (f == newfd)) [
          | inl e ↦ rw (q, e) a.counted
          | inr e ↦
              let in_fds : newfd < edge_max_fd = ground (arith, q) in
              let closed = close_if_used-At newfd k in_fds a in
              rw (q, e)
                (copy_fd-Counted s newfd (record (fd_at k s f) { cloexec = false })
                  (close_if_used pid s newfd k) a.in_procs in_fds (pid_live _ closed.0) closed.1
                  (fd_get-found s oldfd f k h).1 closed.0.counted)
        ]
      ]
  dup2_found-Counted oldfd (pos newfd) k none h a = a.counted
  dup2_found-Counted oldfd (negsuc newfd) k (some f) h a = a.counted
  dup2_found-Counted oldfd (negsuc newfd) k none h a = a.counted
