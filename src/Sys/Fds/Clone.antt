-- ===== src/Sys/Fds/Clone.antt =====
-- src/sys/syscall.c: the copy of the descriptors for the child of a fork, and the file references.
use edge_os.Prelude.{
  ℕ, zero, suc, Bool, true, false, ◌+◌, ◌<◌, ◌≤◌, ◌≡◌, ◌≢◌, refl, sym, ap, ◌∙◌, Option, none, some,
  if◌then◌else◌, ltb, not, arith, subst, ℕ_discrete,
}
use edge_os.Prelude.Maps.{upd, upd_self, upd_ne}
use edge_os.Sys.Objects.{FileRef, file_ref_get}
use edge_os.Sys.Fds.{
  Fd, FdProc, no_fd, Files, put_fd, fd_at, edge_max_fd, edge_max_fd_procs, add_object,
}
use edge_os.Sys.Fds.Ops.{copied}
use edge_os.Sys.Fds.Counts.{is_ref, count_fds, procs-change, none_held}
use edge_os.Sys.Fds.Keep.{
  Counted, add-Same, same-Counted, settle, put_pid, copied-Counted, used_holds, unused_holds,
}
use edge_os.Sys.Fds.Slots.{At}
use edge_os.Sys.Fds.Fork.{clone_ref, clone_one, clone_from, clear_fds, clone_to}

pub put_other : (s f g : ℕ) (e : Fd) (k : Files) → g ≢ f → fd_at (put_fd k s f e) s g ≡ fd_at k s g
unfolding put_fd
put_other s f g e k ne =
    ap (λ (x : FdProc). x.fds g)
      (upd_self k.procs s (record (k.procs s) { fds = upd (k.procs s).fds f e }))
    ∙ upd_ne (k.procs s).fds f e g ne

-- A property of both branches, each under its condition.
if_else :
    (P : Files → Type 0) (b : Bool) {x y : Files}
    → (b ≡ true → P x)
    → (b ≡ false → P y)
    → P (if b then x else y)
if_else P true yes_case no_case = yes_case refl
if_else P false yes_case no_case = no_case refl

if_not :
    (P : Files → Type 0) (b : Bool) {x y : Files}
    → (b ≡ false → P x)
    → (b ≡ true → P y)
    → P (if not b then x else y)
if_not P true no_case yes_case = yes_case refl
if_not P false no_case yes_case = no_case refl

module _ (extra : ℕ → ℕ) (p c : ℕ) (in_procs : c < edge_max_fd_procs) where
  -- The descriptors of the child from `f` on are free.
  record Fresh (f : ℕ) (k : Files) : Type 0 where
    counted : Counted extra k
    live : (k.procs c).pid ≢ 0
    free : (g : ℕ) → f ≤ g → (fd_at k c g).used ≡ false

  wrote-Fresh :
      (f : ℕ) (e : Fd) (k k' : Files)
      → k'.procs ≡ (put_fd k c f e).procs
      → Counted extra k'
      → Fresh f k
      → Fresh (f + 1) k'
  wrote-Fresh f e k k' same counted r = record {
    counted = counted;
    live = λ q.
        r.live (sym (put_pid c f c e k) ∙ (sym (ap (λ (ps : ℕ → FdProc). (ps c).pid) same) ∙ q));
    free = λ g le.
        ap (λ (ps : ℕ → FdProc). ((ps c).fds g).used) same
        ∙ (ap (λ (x : Fd). x.used) (put_other c f g e k (λ q. omega (arith, q)))
            ∙ r.free g (omega arith));
  }

  clone_ref-Fresh :
      (f : ℕ) (e : Fd) (k : Files) (o : Option (ℕ → FileRef))
      → file_ref_get e.file_ref k.refs ≡ o
      → f < edge_max_fd
      → e.used ≡ true
      → Fresh f k
      → Fresh (f + 1) (clone_ref c f e o k)
  unfolding clone_ref copied put_fd
  clone_ref-Fresh f e k none got in_fds u r =
      wrote-Fresh f no_fd k (put_fd k c f no_fd) refl
        (copied-Counted c f e k none got in_procs in_fds r.live (r.free f (omega arith)) u
          r.counted)
        r
  clone_ref-Fresh f e k (some refs) got in_fds u r =
      wrote-Fresh f e k _
        (add-Same e.kind e.pipe_id (put_fd (record k { refs = refs }) c f e)).same_procs
        (copied-Counted c f e k (some refs) got in_procs in_fds r.live (r.free f (omega arith)) u
          r.counted)
        r

  -- A descriptor without a file reference is copied as it is.
  bare-Fresh :
      (f : ℕ) (e : Fd) (k : Files)
      → f < edge_max_fd
      → e.used ≡ true
      → e.file_ref ≡ 0
      → Fresh f k
      → Fresh (f + 1) (add_object e.kind e.pipe_id (put_fd k c f e))
  bare-Fresh f e k in_fds u bare r =
      let a = add-Same e.kind e.pipe_id (put_fd k c f e) in
      wrote-Fresh f e k _ a.same_procs
        (same-Counted (put_fd k c f e) _ a (
          settle k k c f e in_procs in_fds r.live r.counted refl r.counted.unused (λ id lo hi.
            omega (
              arith,
              r.counted.counts id lo hi,
              unused_holds id (fd_at k c f) (r.free f (omega arith)),
              used_holds id e u,
              no_ref id lo,
            ))))
        r
    where
      no_ref : (id : ℕ) → 0 < id → is_ref e.file_ref id ≡ 0
      no_ref id lo = ap (λ (x : ℕ). is_ref x id) bare ∙ ground arith

  clone_one-Fresh :
      (f : ℕ) (e : Fd) (k : Files) → f < edge_max_fd → Fresh f k → Fresh (f + 1) (clone_one c f e k)
  unfolding clone_one
  clone_one-Fresh f e k in_fds r =
      if_not (Fresh (f + 1)) e.used
        (λ u. record { counted = r.counted; live = r.live; free = λ g le. r.free g (omega arith) })
        (λ u.
          if_else (Fresh (f + 1)) (ltb 0 e.file_ref) (λ q. clone_ref-Fresh f e k _ refl in_fds u r)
            (λ q. bare-Fresh f e k in_fds u (ground (arith, q)) r))

  clone_from-Counted :
      (f n : ℕ) (k : Files) → f + n ≤ edge_max_fd → Fresh f k → Counted extra (clone_from p c f n k)
  unfolding clone_from
  clone_from-Counted f zero k le r = r.counted
  clone_from-Counted f (suc n) k le r =
      clone_from-Counted (f + 1) n (clone_one c f (fd_at k p f) k) (omega arith)
        (clone_one-Fresh f (fd_at k p f) k (omega arith) r)

-- What the child held is held by none once its descriptors are cleared.
abbrev pub with_lost : (ℕ → ℕ) → ℕ → Files → ℕ → ℕ
with_lost extra c k id = extra id + count_fds id (k.procs c).fds

clear_fds-Fresh :
    (extra : ℕ → ℕ) (p pid c : ℕ) (k : Files) (a : At extra pid c k)
    → pid ≢ 0
    → Fresh (with_lost extra c k) p c a.in_procs 0 (clear_fds c k)
clear_fds-Fresh extra p pid c k a live =
    let cleared = record (k.procs c) { fds = λ i. no_fd } in
    let here : upd k.procs c cleared c ≡ cleared = upd_self k.procs c cleared in
    let has_pid : (upd k.procs c cleared c).pid ≡ pid =
      ap (λ (x : FdProc). x.pid) here ∙ a.pid_is in
    record {
      counted = record {
        counts = λ id lo hi. omega (
          arith,
          a.counted.counts id lo hi,
          procs-change id c cleared k.procs a.in_procs,
          none_held id (λ f. no_fd) (λ f. refl),
        );
        unused = a.counted.unused;
        vacant = λ t g h. elim (ℕ_discrete t c) [
          | yes q ↦
              absurd
                (live (sym has_pid ∙ (ap (λ (j : ℕ). (upd k.procs c cleared j).pid) (sym q) ∙ h)))
          | no q ↦
              subst (λ (x : FdProc). x.pid ≡ 0 → (x.fds g).used ≡ false)
                (sym (upd_ne k.procs c cleared t q)) (a.counted.vacant t g) h
        ];
      };
      live = λ q. live (sym has_pid ∙ q);
      free = λ g le. ap (λ (x : FdProc). (x.fds g).used) here;
    }

pub clone_to-Counted :
    (extra : ℕ → ℕ) (p pid c : ℕ) (k : Files)
    → At extra pid c k
    → pid ≢ 0
    → Counted (with_lost extra c k) (clone_to p (some c, k))
unfolding clone_to
clone_to-Counted extra p pid c k a live =
    clone_from-Counted (with_lost extra c k) p c a.in_procs 0 edge_max_fd (clear_fds c k)
      (omega arith) (clear_fds-Fresh extra p pid c k a live)
