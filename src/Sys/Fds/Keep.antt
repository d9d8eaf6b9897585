-- ===== src/Sys/Fds/Keep.antt =====
-- src/sys/syscall.c: the calls on descriptors keep the counts of the file references right.
use edge_os.Prelude.{
  ℕ, Bool, true, false, ◌+◌, ◌-◌, ◌<◌, ◌≡◌, ◌≢◌, refl, sym, ap, ◌∙◌, Option, none, some,
  if◌then◌else◌, ltb, arith, Bool-cases, subst, ℕ_discrete, inl, inr,
}
use edge_os.Prelude.Int.{ℤ}
use edge_os.Prelude.Maps.{upd, upd_ne, upd_self}
use edge_os.Sys.Objects.{FileRef, edge_max_file_refs, file_ref_get}
use edge_os.Sys.Fds.{
  FdKind, fd_pipe_r, Fd, FdProc, no_fd, Files, put_fd, fd_at, edge_max_fd, edge_max_fd_procs,
  drop_object, add_object, put_ref, release_fb,
}
use edge_os.Sys.Fds.Ops.{close_at, copied, copy_fd}
use edge_os.Sys.Fds.Counts.{
  is_ref, holds_ref, count_refs, put-count, Idle, put-refs, put-Idle, get-refs, get-Idle, Allocated,
}

-- The count of each reference is the number of the descriptors that hold it, and `extra` more that
-- none holds; a reference that is not used counts nothing, and a slot with no process has no
-- descriptor.
pub record Counted (extra : ℕ → ℕ) (k : Files) : Type 0 where
  pub counts :
      (id : ℕ)
      → 0 < id
      → id < edge_max_file_refs
      → (k.refs id).refs ≡ count_refs id k.procs + extra id
  pub unused : Idle k.refs
  -- a slot with no process has no descriptor
  pub vacant : (s f : ℕ) → (k.procs s).pid ≡ 0 → (fd_at k s f).used ≡ false

-- The objects of descriptors are other state.
pub record SameRefs (k k' : Files) : Type 0 where
  pub same_procs : k'.procs ≡ k.procs
  pub same_refs : k'.refs ≡ k.refs

pub drop-Same : (kind : FdKind) (id : ℤ) (k : Files) → SameRefs k (drop_object kind id k)
unfolding drop_object
drop-Same fd_pipe_r id k = record { same_procs = refl; same_refs = refl }
drop-Same other id k = record { same_procs = refl; same_refs = refl }

pub add-Same : (kind : FdKind) (id : ℤ) (k : Files) → SameRefs k (add_object kind id k)
unfolding add_object
add-Same fd_pipe_r id k = record { same_procs = refl; same_refs = refl }
add-Same other id k = record { same_procs = refl; same_refs = refl }

fb-Same : (e : Fd) (k : Files) → SameRefs k (release_fb e k)
unfolding release_fb
fb-Same e k = record { same_procs = ground arith; same_refs = ground arith }

module _ {extra : ℕ → ℕ} where
  pub same-Counted : (k k' : Files) → SameRefs k k' → Counted extra k → Counted extra k'
  same-Counted k k' same c = record {
    counts = λ id lo hi.
        ap (λ (t : ℕ → FileRef). (t id).refs) same.same_refs
        ∙ (c.counts id lo hi
            ∙ sym (ap (λ (ps : ℕ → FdProc). count_refs id ps + extra id) same.same_procs));
    unused = subst Idle (sym same.same_refs) c.unused;
    vacant = λ s f.
        subst (λ (ps : ℕ → FdProc). (ps s).pid ≡ 0 → ((ps s).fds f).used ≡ false)
          (sym same.same_procs) (c.vacant s f);
  }

  -- A descriptor is written after other changes, which make up for what it held and holds.
  pub put-vacant :
      (k k' : Files) (s f : ℕ) (e : Fd)
      → (k.procs s).pid ≢ 0
      → k'.procs ≡ k.procs
      → Counted extra k
      → (s' f' : ℕ) → ((put_fd k' s f e).procs s').pid ≡ 0
      → (fd_at (put_fd k' s f e) s' f').used ≡ false
  unfolding put_fd
  put-vacant k k' s f e live same c s' f' =
      subst
        (λ (ps : ℕ → FdProc).
          (upd ps s (record (ps s) { fds = upd (ps s).fds f e }) s').pid ≡ 0
          → ((upd ps s (record (ps s) { fds = upd (ps s).fds f e }) s').fds f').used ≡ false)
        (sym same)
        (λ h. elim (ℕ_discrete s' s) [
          | yes q ↦ absurd (live (ground (arith, q)))
          | no q ↦
              let other =
                upd_ne k.procs s (record (k.procs s) { fds = upd (k.procs s).fds f e }) s' q in
              rw other (c.vacant s' f' (rw other at h))
        ])

  pub settle :
      (k k' : Files) (s f : ℕ) (e : Fd)
      → s < edge_max_fd_procs
      → f < edge_max_fd
      → (k.procs s).pid ≢ 0
      → Counted extra k
      → k'.procs ≡ k.procs
      → Idle k'.refs
      → ((id : ℕ)
          → 0 < id
          → id < edge_max_file_refs
          → (k'.refs id).refs + holds_ref id (fd_at k s f)
            ≡ count_refs id k.procs + extra id + holds_ref id e)
      → Counted extra (put_fd k' s f e)
  settle k k' s f e in_procs in_fds live c same z balance = record {
    counts = λ id lo hi.
        let refs_same : ((put_fd k' s f e).refs id).refs ≡ (k'.refs id).refs =
          unfold put_fd in refl in
        let old = ap (λ (ps : ℕ → FdProc). holds_ref id ((ps s).fds f)) same in
        omega (
          arith,
          refs_same,
          old,
          balance id lo hi,
          put-count id s f e k' in_procs in_fds,
          ap (count_refs id) same,
        );
    unused = unfold put_fd in z;
    vacant = put-vacant k k' s f e live same c;
  }

pub put_ref-refs :
    (r id : ℕ) (k : Files)
    → Idle k.refs
    → 0 < id
    → id < edge_max_file_refs
    → ((put_ref r k).refs id).refs ≡ (k.refs id).refs - is_ref r id
unfolding put_ref
put_ref-refs r id k z lo hi = elim (Bool-cases (ltb 0 r)) [
  | inl q ↦ rw q (put-refs r id k.refs z lo hi)
  | inr q ↦ rw q (ground arith)
]

pub put_ref-Idle : (r : ℕ) (k : Files) → Idle k.refs → Idle (put_ref r k).refs
unfolding put_ref
put_ref-Idle r k z = elim (Bool-cases (ltb 0 r)) [
  | inl q ↦ rw q (put-Idle r k.refs z)
  | inr q ↦ rw q z
]

pub put_ref-procs : (r : ℕ) (k : Files) → (put_ref r k).procs ≡ k.procs
unfolding put_ref
put_ref-procs r k = ground arith

pub used_holds : (id : ℕ) (e : Fd) → e.used ≡ true → holds_ref id e ≡ is_ref e.file_ref id
used_holds id e u = ap (λ (b : Bool). if b then is_ref e.file_ref id else 0) u

pub unused_holds : (id : ℕ) (e : Fd) → e.used ≡ false → holds_ref id e ≡ 0
unused_holds id e u = ap (λ (b : Bool). if b then is_ref e.file_ref id else 0) u

module _ {extra : ℕ → ℕ} where
  -- A descriptor goes away with its reference.
  pub close_at-Counted :
      (s f : ℕ) (k : Files)
      → s < edge_max_fd_procs
      → f < edge_max_fd
      → (k.procs s).pid ≢ 0
      → (fd_at k s f).used ≡ true
      → Counted extra k
      → Counted extra (close_at s f k)
  unfolding close_at
  close_at-Counted s f k in_procs in_fds live is_used c =
      let e = fd_at k s f in
      let k1 = put_ref e.file_ref k in
      let k2 = drop_object e.kind e.pipe_id k1 in
      let k3 = release_fb e k2 in
      let d = drop-Same e.kind e.pipe_id k1 in
      let b = fb-Same e k2 in
      let same_procs = b.same_procs ∙ (d.same_procs ∙ put_ref-procs e.file_ref k) in
      let same_refs : k3.refs ≡ k1.refs = b.same_refs ∙ d.same_refs in
      settle k k3 s f no_fd in_procs in_fds live c same_procs
        (subst Idle (sym same_refs) (put_ref-Idle e.file_ref k c.unused))
        (λ id lo hi. omega (
          arith,
          ap (λ (t : ℕ → FileRef). (t id).refs) same_refs,
          put_ref-refs e.file_ref id k c.unused lo hi,
          c.counts id lo hi,
          used_holds id e is_used,
          put-count id s f no_fd k in_procs in_fds,
        ))

pub put_pid : (s f t : ℕ) (e : Fd) (k : Files) → ((put_fd k s f e).procs t).pid ≡ (k.procs t).pid
unfolding put_fd
put_pid s f t e k = ground arith

-- what a close leaves in the table: the pids, and the descriptor free
pub close_at-pid : (s f t : ℕ) (k : Files) → ((close_at s f k).procs t).pid ≡ (k.procs t).pid
unfolding close_at put_fd
close_at-pid s f t k =
    let e = fd_at k s f in
    let k1 = put_ref e.file_ref k in
    let k2 = drop_object e.kind e.pipe_id k1 in
    let same =
      (fb-Same e k2).same_procs
      ∙ ((drop-Same e.kind e.pipe_id k1).same_procs ∙ put_ref-procs e.file_ref k) in
    ap (λ (ps : ℕ → FdProc). (upd ps s (record (ps s) { fds = upd (ps s).fds f no_fd }) t).pid) same
    ∙ put_pid s f t no_fd k

pub put_at : (s f : ℕ) (e : Fd) (k : Files) → fd_at (put_fd k s f e) s f ≡ e
unfolding put_fd
put_at s f e k =
    ap (λ (x : FdProc). x.fds f)
      (upd_self k.procs s (record (k.procs s) { fds = upd (k.procs s).fds f e }))
    ∙ upd_self (k.procs s).fds f e

pub close_at-free : (s f : ℕ) (k : Files) → (fd_at (close_at s f k) s f).used ≡ false
unfolding close_at
close_at-free s f k = ap (λ (x : Fd). x.used) (put_at s f no_fd _)

module _ {extra : ℕ → ℕ} where
  -- A descriptor that was free becomes a copy, with a reference more, or is cleared.
  pub copied-Counted :
      (s f : ℕ) (e : Fd) (k : Files) (o : Option (ℕ → FileRef))
      → file_ref_get e.file_ref k.refs ≡ o
      → s < edge_max_fd_procs
      → f < edge_max_fd
      → (k.procs s).pid ≢ 0
      → (fd_at k s f).used ≡ false
      → e.used ≡ true
      → Counted extra k
      → Counted extra (copied s f e k o).1
  unfolding copied
  copied-Counted s f e k none got in_procs in_fds live free is_used c =
      settle k k s f no_fd in_procs in_fds live c refl c.unused
        (λ id lo hi. omega (arith, c.counts id lo hi, unused_holds id (fd_at k s f) free))
  copied-Counted s f e k (some refs) got in_procs in_fds live free is_used c =
      let k1 = record k { refs = refs } in
      let a = add-Same e.kind e.pipe_id (put_fd k1 s f e) in
      same-Counted (put_fd k1 s f e) (add_object e.kind e.pipe_id (put_fd k1 s f e)) a (
        settle k k1 s f e in_procs in_fds live c refl (get-Idle e.file_ref k.refs refs c.unused got)
          (λ id lo hi. omega (
            arith,
            get-refs e.file_ref id k.refs refs got,
            c.counts id lo hi,
            unused_holds id (fd_at k s f) free,
            used_holds id e is_used,
          )))

  pub copy_fd-Counted :
      (s f : ℕ) (e : Fd) (k : Files)
      → s < edge_max_fd_procs
      → f < edge_max_fd
      → (k.procs s).pid ≢ 0
      → (fd_at k s f).used ≡ false
      → e.used ≡ true
      → Counted extra k
      → Counted extra (copy_fd s f e k).1
  unfolding copy_fd
  copy_fd-Counted s f e k in_procs in_fds live free is_used c =
      copied-Counted s f e k _ refl in_procs in_fds live free is_used c

-- A free descriptor takes a new reference.
module _ {extra : ℕ → ℕ} (s f : ℕ) (k : Files) (in_procs : s < edge_max_fd_procs)
    (in_fds : f < edge_max_fd) (live : (k.procs s).pid ≢ 0) (free : (fd_at k s f).used ≡ false)
    (c : Counted extra k) where
  pub fresh-Counted :
      (r : ℕ) (refs : ℕ → FileRef) (e : Fd)
      → Allocated k.refs r refs
      → e.used ≡ true
      → e.file_ref ≡ r
      → Counted extra (put_fd (record k { refs = refs }) s f e)
  fresh-Counted r refs e a is_used eq =
      settle k (record k { refs = refs }) s f e in_procs in_fds live c refl a.still_Idle
        (λ id lo hi. omega (
          arith,
          a.counted id lo,
          c.counts id lo hi,
          unused_holds id (fd_at k s f) free,
          used_holds id e is_used,
          ap (λ (x : ℕ). is_ref x id) eq,
        ))

  pub cleared-Counted : Counted extra (put_fd k s f no_fd)
  cleared-Counted =
      settle k k s f no_fd in_procs in_fds live c refl c.unused
        (λ id lo hi. omega (arith, c.counts id lo hi, unused_holds id (fd_at k s f) free))
