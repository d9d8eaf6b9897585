-- ===== src/Sys/Fds/Release.antt =====
-- src/sys/syscall.c: the end of a process gives back the file references of its descriptors.
use edge_os.Prelude.{
  ℕ, zero, suc, true, false, ◌+◌, ◌<◌, ◌≤◌, ◌≡◌, refl, sym, ap, ◌∙◌, Option, none, some, arith,
  Bool-cases, subst, inl, inr, ℕ_discrete,
}
use edge_os.Prelude.Maps.{upd, upd_self, upd_ne}
use edge_os.Sys.Objects.{FileRef, edge_max_file_refs}
use edge_os.Sys.Fds.{
  FdProc, no_fd, no_proc, Files, fd_at, edge_max_fd, edge_max_fd_procs, drop_object, put_ref,
  fd_proc_for_pid,
}
use edge_os.Sys.Fds.Counts.{
  sum, sum-term, sum_longer, holds_ref, count_fds, count_refs, procs-change, none_held, Idle,
}
use edge_os.Sys.Fds.Keep.{
  Counted, drop-Same, put_ref-refs, put_ref-Idle, put_ref-procs, used_holds, unused_holds,
}
use edge_os.Sys.Fds.Slots.{find-found}
use edge_os.Sys.Fds.Fork.{release_from, clear_proc, release_slot, fd_proc_release}

module _ (extra : ℕ → ℕ) (s : ℕ) (in_procs : s < edge_max_fd_procs) where
  abbrev held_below : ℕ → ℕ → Files → ℕ
  held_below id f k = sum f (λ j. holds_ref id (fd_at k s j))

  -- The references of the first `f` descriptors are given back, and these are still there.
  record Dropping (f : ℕ) (k : Files) : Type 0 where
    counts :
        (id : ℕ)
        → 0 < id
        → id < edge_max_file_refs
        → (k.refs id).refs + held_below id f k ≡ count_refs id k.procs + extra id
    unused : Idle k.refs
    vacant : (t g : ℕ) → (k.procs t).pid ≡ 0 → (fd_at k t g).used ≡ false

  held-count :
      (id f : ℕ) (k : Files)
      → f < edge_max_fd
      → held_below id f k + holds_ref id (fd_at k s f) ≤ count_refs id k.procs
  unfolding count_refs count_fds
  held-count id f k in_fds =
      let g = λ (j : ℕ). holds_ref id (fd_at k s j) in
      let next : sum (suc f) g ≡ g f + sum f g = unfold sum in refl in
      omega (
        arith,
        next,
        sum_longer (suc f) edge_max_fd g (omega arith),
        sum-term edge_max_fd_procs s (λ t. count_fds id (k.procs t).fds) in_procs,
      )

  abbrev given_back : ℕ → Files → Files
  given_back f k = let e = fd_at k s f in drop_object e.kind e.pipe_id (put_ref e.file_ref k)

  given_back-procs : (f : ℕ) (k : Files) → (given_back f k).procs ≡ k.procs
  given_back-procs f k =
      let e = fd_at k s f in
      (drop-Same e.kind e.pipe_id (put_ref e.file_ref k)).same_procs ∙ put_ref-procs e.file_ref k

  given_back-Dropping :
      (f : ℕ) (k : Files)
      → f < edge_max_fd
      → (fd_at k s f).used ≡ true
      → Dropping f k
      → Dropping (suc f) (given_back f k)
  given_back-Dropping f k in_fds is_used d =
      let e = fd_at k s f in
      let same_procs = given_back-procs f k in
      let same_refs = (drop-Same e.kind e.pipe_id (put_ref e.file_ref k)).same_refs in
      record {
        counts = λ id lo hi.
            let next : held_below id (suc f) (given_back f k)
                ≡ holds_ref id (fd_at (given_back f k) s f) + held_below id f (given_back f k) =
              unfold sum in refl in
            omega (
              arith,
              next,
              ap (λ (ps : ℕ → FdProc). sum f (λ j. holds_ref id ((ps s).fds j))) same_procs,
              ap (λ (ps : ℕ → FdProc). holds_ref id ((ps s).fds f)) same_procs,
              ap (count_refs id) same_procs,
              ap (λ (t : ℕ → FileRef). (t id).refs) same_refs,
              put_ref-refs e.file_ref id k d.unused lo hi,
              used_holds id e is_used,
              held-count id f k in_fds,
              d.counts id lo hi,
            );
        unused = subst Idle (sym same_refs) (put_ref-Idle e.file_ref k d.unused);
        vacant = λ t g.
            subst (λ (ps : ℕ → FdProc). (ps t).pid ≡ 0 → ((ps t).fds g).used ≡ false)
              (sym same_procs) (d.vacant t g);
      }

  passed-Dropping :
      (f : ℕ) (k : Files) → (fd_at k s f).used ≡ false → Dropping f k → Dropping (suc f) k
  passed-Dropping f k u d = record {
    counts = λ id lo hi.
        let next : held_below id (suc f) k ≡ holds_ref id (fd_at k s f) + held_below id f k =
          unfold sum in refl in
        omega (arith, next, unused_holds id (fd_at k s f) u, d.counts id lo hi);
    unused = d.unused;
    vacant = d.vacant;
  }

  release_from-Dropping :
      (f n : ℕ) (k : Files)
      → f + n ≤ edge_max_fd
      → Dropping f k
      → Dropping (f + n) (release_from s f n k)
  unfolding release_from
  release_from-Dropping f zero k le d =
      let e : f ≡ f + 0 = omega arith in subst (λ (j : ℕ). Dropping j k) e d
  release_from-Dropping f (suc n) k le d =
      let e : (f + 1) + n ≡ f + suc n = omega arith in
      let one : suc f ≡ f + 1 = omega arith in
      subst (λ (j : ℕ). Dropping j (release_from s f (suc n) k)) e
        (elim (Bool-cases (fd_at k s f).used) [
          | inl u ↦ rw u (
              release_from-Dropping (f + 1) n (given_back f k) (omega arith) (
                subst (λ (j : ℕ). Dropping j (given_back f k)) one
                  (given_back-Dropping f k (omega arith) u d)))
          | inr u ↦ rw u (
              release_from-Dropping (f + 1) n k (omega arith)
                (subst (λ (j : ℕ). Dropping j k) one (passed-Dropping f k u d)))
        ])

  -- Once all are given back, the slot is cleared.
  cleared-Counted : (k : Files) → Dropping edge_max_fd k → Counted extra (clear_proc s k)
  unfolding count_fds
  cleared-Counted k d = record {
    counts = λ id lo hi. omega (
      arith,
      d.counts id lo hi,
      procs-change id s no_proc k.procs in_procs,
      none_held id (λ f. no_fd) (λ f. refl),
    );
    unused = d.unused;
    vacant = λ t g h. elim (ℕ_discrete t s) [
      | yes q ↦
          ap (λ (j : ℕ). ((upd k.procs s no_proc j).fds g).used) q
          ∙ ap (λ (p : FdProc). (p.fds g).used) (upd_self k.procs s no_proc)
      | no q ↦
          subst (λ (p : FdProc). p.pid ≡ 0 → (p.fds g).used ≡ false)
            (sym (upd_ne k.procs s no_proc t q)) (d.vacant t g) h
    ];
  }

  started-Dropping : (k : Files) → Counted extra k → Dropping 0 k
  started-Dropping k c = record {
    counts = λ id lo hi.
        let nothing : held_below id 0 k ≡ 0 = unfold sum in refl in
        omega (arith, nothing, c.counts id lo hi);
    unused = c.unused;
    vacant = c.vacant;
  }

release_slot-Counted :
    (extra : ℕ → ℕ) (pid : ℕ) (o : Option ℕ) (k : Files)
    → fd_proc_for_pid pid k ≡ o
    → Counted extra k
    → Counted extra (release_slot o k)
unfolding release_slot fd_proc_for_pid
release_slot-Counted extra pid none k h c = c
release_slot-Counted extra pid (some s) k h c =
    let in_procs : s < edge_max_fd_procs =
      omega (arith, (find-found pid 0 edge_max_fd_procs s k.procs h).0) in
    cleared-Counted extra s in_procs (release_from s 0 edge_max_fd k) (
      release_from-Dropping extra s in_procs 0 edge_max_fd k (omega arith)
        (started-Dropping extra s in_procs k c))

-- When a process ends, its descriptors are gone, and what they held is given back.
pub release-Counted :
    (extra : ℕ → ℕ) (pid : ℕ) (k : Files) → Counted extra k → Counted extra (fd_proc_release pid k)
unfolding fd_proc_release
release-Counted extra pid k c = release_slot-Counted extra pid _ k refl c
