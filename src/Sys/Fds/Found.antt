-- ===== src/Sys/Fds/Found.antt =====
-- src/sys/syscall.c: what the searches among the descriptors of a process give, and what the calls
-- leave of the search for the slot of a process.
use edge_os.Prelude.{
  ℕ, zero, suc, true, false, ◌+◌, ◌-◌, ◌<◌, ◌≡◌, refl, ap, ◌∙◌, Option, some, ltb, ◌&&◌, arith,
  Bool-cases, subst, inl, inr,
}
use edge_os.Prelude.Int.{ℤ, pos}
use edge_os.Prelude.Maps.{upd}
use edge_os.Sys.Fds.{
  Fd, FdProc, no_proc, Files, put_fd, fd_at, edge_max_fd, edge_max_fd_procs, fd_proc_for_pid,
  free_fd, fd_alloc, fd_get,
}
use edge_os.Sys.Fds.Ops.{close_at, close_found, close_in, do_sys_close}
use edge_os.Sys.Fds.Keep.{close_at-pid, put_pid}
use edge_os.Sys.Fds.Slots.{find-same}

-- Another descriptor is no other slot.
pub put-first :
    (pid t f : ℕ) (e : Fd) (k k' : Files)
    → k'.procs ≡ k.procs
    → fd_proc_for_pid pid (put_fd k' t f e) ≡ fd_proc_for_pid pid k
unfolding fd_proc_for_pid
put-first pid t f e k k' same =
    find-same pid 0 edge_max_fd_procs k.procs (put_fd k' t f e).procs
      (λ j. put_pid t f j e k' ∙ ap (λ (ps : ℕ → FdProc). (ps j).pid) same)

-- A slot with no process is taken.
unfoldable pub taken : ℕ → ℕ → Files → Files
taken pid s k = record k { procs = upd k.procs s (record no_proc { pid = pid }) }

module _ (s : ℕ) where
  -- a descriptor that is there, or the first free one
  pub fd_get-found :
      (fd : ℤ) (f : ℕ) (k : Files)
      → fd_get s fd k ≡ some f
      → (f < edge_max_fd) × ((fd_at k s f).used ≡ true)
  unfolding fd_get
  fd_get-found (pos g) f k h = elim (Bool-cases (ltb g edge_max_fd && (fd_at k s g).used)) [
    | inl q ↦
        let e : g ≡ f = ground arith in
        let r : (g < edge_max_fd) × ((fd_at k s g).used ≡ true) = (ground arith, ground arith) in
        (omega (arith, e, r.0), subst (λ (j : ℕ). (fd_at k s j).used ≡ true) e r.1)
    | inr q ↦ absurd (ground arith)
  ]
  fd_get-found other f k h = absurd (cc)

  pub free_fd-found :
      (f n g : ℕ) (fds : ℕ → Fd) → free_fd f n fds ≡ some g → (g < f + n) × ((fds g).used ≡ false)
  unfolding free_fd
  free_fd-found f zero g fds h = absurd (cc)
  free_fd-found f (suc n) g fds h = elim (Bool-cases (fds f).used) [
    | inl q ↦ let r = free_fd-found (f + 1) n g fds (rw q at h) in (omega (arith, r.0), r.1)
    | inr q ↦
        let e : f ≡ g = ground arith in
        (omega (arith, e), subst (λ (j : ℕ). (fds j).used ≡ false) e q)
  ]

  pub fd_alloc-found :
      (minfd g : ℕ) (k : Files)
      → fd_alloc s minfd k ≡ some g
      → (g < edge_max_fd) × ((fd_at k s g).used ≡ false)
  unfolding fd_alloc
  fd_alloc-found minfd g k h = elim (Bool-cases (ltb minfd edge_max_fd)) [
    | inl q ↦
        let r = free_fd-found minfd (edge_max_fd - minfd) g (k.procs s).fds h in
        (ground (arith, r.0), r.1)
    | inr q ↦
        let e : edge_max_fd - minfd ≡ 0 = ground arith in
        let none_left : free_fd minfd 0 (k.procs s).fds ≡ some g =
          subst (λ (n : ℕ). free_fd minfd n (k.procs s).fds ≡ some g) e h in
        absurd (unfold free_fd in cc)
  ]

module _ (pid s : ℕ) where
  pub close-is :
      (f : ℕ) (k : Files)
      → f < edge_max_fd
      → (fd_at k s f).used ≡ true
      → fd_proc_for_pid pid k ≡ some s
      → do_sys_close pid (pos f) k ≡ (pos 0, close_at s f k)
  unfolding do_sys_close
  close-is f k in_fds u first =
      let there : fd_get s (pos f) k ≡ some f = unfold fd_get in ground (arith, in_fds, u) in
      ap (λ (o : Option ℕ). close_in o (pos f) k) first
      ∙ (unfold close_in in
          ap (λ (o : Option ℕ). close_found s o k) there ∙ (unfold close_found in refl))

  pub close_at-first :
      (f : ℕ) (k : Files) → fd_proc_for_pid pid (close_at s f k) ≡ fd_proc_for_pid pid k
  unfolding fd_proc_for_pid
  close_at-first f k =
      find-same pid 0 edge_max_fd_procs k.procs (close_at s f k).procs (λ j. close_at-pid s f j k)
