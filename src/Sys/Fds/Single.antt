-- ===== src/Sys/Fds/Single.antt =====
-- src/sys/syscall.c: `close`, `dup`, `dup2`, new descriptors for objects and the standard descriptors
-- each keep the counts of the file references right.
use edge_os.Prelude.{ℕ, Bool, ◌≡◌, ◌≢◌, refl, Option, none, some, arith}
use edge_os.Prelude.Int.{ℤ}
use edge_os.Sys.Fds.{
  FdKind, Files, edge_max_fd_procs, slot_or_new, fd_proc_for_pid, fd_proc_create, ensure_found,
  fd_proc_with_stdio,
}
use edge_os.Sys.Fds.Ops.{
  close_in, do_sys_close, dup_in, fcntl_dupfd, dup2_in, do_sys_dup2, special_in, alloc_special_fd,
}
use edge_os.Sys.Fds.Keep.{Counted}
use edge_os.Sys.Fds.Slots.{At, find-found}
use edge_os.Sys.Fds.Steps.{
  ensure_stdio-At, new_proc-At, close_found-At, dup_found-Counted, special_at-Counted,
  dup2_found-Counted,
}

-- The search for the slot of a process gives one with its descriptors counted, or none.
abbrev pub Found : (ℕ → ℕ) → ℕ → Option ℕ × Files → Type 0
Found extra pid (none, k) = Counted extra k
Found extra pid (some s, k) = At extra pid s k

module _ (extra : ℕ → ℕ) (pid : ℕ) (live : pid ≢ 0) where
  pub slot_or_new-Found :
      (o free : Option ℕ) (k : Files)
      → fd_proc_for_pid pid k ≡ o
      → fd_proc_for_pid 0 k ≡ free
      → Counted extra k
      → Found extra pid (slot_or_new pid o free k)
  unfolding slot_or_new fd_proc_for_pid
  slot_or_new-Found (some s) free k h z c =
      let r = find-found pid 0 edge_max_fd_procs s k.procs h in
      record { counted = c; in_procs = omega (arith, r.0); pid_is = r.1; first = h }
  slot_or_new-Found none (some s) k h z c =
      let r = find-found 0 0 edge_max_fd_procs s k.procs z in
      new_proc-At pid live s k (omega (arith, r.0)) r.1 h c
  slot_or_new-Found none none k h z c = c

  ensure_found-Found : (r : Option ℕ × Files) → Found extra pid r → Found extra pid (ensure_found r)
  unfolding ensure_found
  ensure_found-Found (none, k) c = c
  ensure_found-Found (some s, k) a = ensure_stdio-At pid live s k a

  pub create-Found : (k : Files) → Counted extra k → Found extra pid (fd_proc_create pid k)
  unfolding fd_proc_create
  create-Found k c = slot_or_new-Found _ _ k refl refl c

  pub with_stdio-Found : (k : Files) → Counted extra k → Found extra pid (fd_proc_with_stdio pid k)
  unfolding fd_proc_with_stdio
  with_stdio-Found k c = ensure_found-Found _ (create-Found k c)

  close_in-Counted :
      (fd : ℤ) (k : Files) (o : Option ℕ)
      → fd_proc_for_pid pid k ≡ o
      → Counted extra k
      → Counted extra (close_in o fd k).1
  unfolding close_in fd_proc_for_pid
  close_in-Counted fd k none h c = c
  close_in-Counted fd k (some s) h c =
      let r = find-found pid 0 edge_max_fd_procs s k.procs h in
      close_found-At pid live s fd k _ refl
        (record { counted = c; in_procs = omega (arith, r.0); pid_is = r.1; first = h })

  pub close-Counted :
      (fd : ℤ) (k : Files) → Counted extra k → Counted extra (do_sys_close pid fd k).1
  unfolding do_sys_close
  close-Counted fd k c = close_in-Counted fd k _ refl c

  dup_in-Counted :
      (fd : ℤ) (minfd : ℕ) (cloexec : Bool) (r : Option ℕ × Files)
      → Found extra pid r
      → Counted extra (dup_in fd minfd cloexec r).1
  unfolding dup_in
  dup_in-Counted fd minfd cloexec (none, k) c = c
  dup_in-Counted fd minfd cloexec (some s, k) a =
      dup_found-Counted pid live s fd minfd cloexec k _ refl a

  pub dupfd-Counted :
      (fd : ℤ) (minfd : ℕ) (cloexec : Bool) (k : Files)
      → Counted extra k
      → Counted extra (fcntl_dupfd pid fd minfd cloexec k).1
  unfolding fcntl_dupfd
  dupfd-Counted fd minfd cloexec k c = dup_in-Counted fd minfd cloexec _ (with_stdio-Found k c)

  special_in-Counted :
      (kind : FdKind) (id : ℤ) (flags : ℕ) (cloexec : Bool) (r : Option ℕ × Files)
      → Found extra pid r
      → Counted extra (special_in kind id flags cloexec r).1
  unfolding special_in
  special_in-Counted kind id flags cloexec (none, k) c = c
  special_in-Counted kind id flags cloexec (some s, k) a =
      special_at-Counted pid live s kind id flags cloexec k _ refl a

  pub special-Counted :
      (kind : FdKind) (id : ℤ) (flags : ℕ) (cloexec : Bool) (k : Files)
      → Counted extra k
      → Counted extra (alloc_special_fd pid kind id flags cloexec k).1
  unfolding alloc_special_fd
  special-Counted kind id flags cloexec k c =
      special_in-Counted kind id flags cloexec _ (with_stdio-Found k c)

  dup2_in-Counted :
      (oldfd newfd : ℤ) (r : Option ℕ × Files)
      → Found extra pid r
      → Counted extra (dup2_in pid oldfd newfd r).1
  unfolding dup2_in
  dup2_in-Counted oldfd newfd (none, k) c = c
  dup2_in-Counted oldfd newfd (some s, k) a = dup2_found-Counted pid live s oldfd newfd k _ refl a

  pub dup2-Counted :
      (oldfd newfd : ℤ) (k : Files)
      → Counted extra k
      → Counted extra (do_sys_dup2 pid oldfd newfd k).1
  unfolding do_sys_dup2
  dup2-Counted oldfd newfd k c = dup2_in-Counted oldfd newfd _ (with_stdio-Found k c)
