-- ===== src/Sys/Fds/Counts.antt =====
-- src/sys/syscall.c: how many descriptors hold a file reference, and how the calls change that and
-- the table of references.
use edge_os.Prelude.{
  ℕ, zero, suc, Bool, false, ◌+◌, ◌-◌, ◌<◌, ◌≤◌, ◌≡◌, ◌≢◌, refl, ap, ◌∙◌, some, if◌then◌else◌, ◌==◌,
  arith, Bool-cases, ℕ_discrete, subst, inl, inr,
}
use edge_os.Prelude.Maps.{upd, upd_self, upd_ne}
use edge_os.Sys.Objects.{
  FileRef, edge_max_file_refs, is_held, file_ref_from, file_ref_alloc, file_ref_get, file_ref_put,
}
use edge_os.Sys.Fds.{Fd, FdProc, Files, put_fd, fd_at, edge_max_fd, edge_max_fd_procs}

-- g 0 + ... + g (n - 1)
unfoldable pub sum : ℕ → (ℕ → ℕ) → ℕ
sum zero g = 0
sum (suc n) g = g n + sum n g

sum-same : (n : ℕ) (g h : ℕ → ℕ) → ((j : ℕ) → j < n → g j ≡ h j) → sum n g ≡ sum n h
unfolding sum
sum-same zero g h same = refl
sum-same (suc n) g h same =
    omega (arith, same n (omega arith), sum-same n g h (λ j lt. same j (omega arith)))

sum-change :
    (n i : ℕ) (g h : ℕ → ℕ) → i < n → ((j : ℕ) → j ≢ i → h j ≡ g j) → sum n h + g i ≡ sum n g + h i
unfolding sum
sum-change zero i g h lt same = absurd (omega arith)
sum-change (suc n) i g h lt same = elim (ℕ_discrete n i) [
  | yes e ↦
      let rest = sum-same n h g (λ j jn. same j (λ q. omega arith)) in
      omega (arith, rest, ap g e, ap h e)
  | no e ↦ omega (arith, same n e, sum-change n i g h (omega arith) same)
]

pub sum-term : (n i : ℕ) (g : ℕ → ℕ) → i < n → g i ≤ sum n g
unfolding sum
sum-term zero i g lt = absurd (omega arith)
sum-term (suc n) i g lt = elim (ℕ_discrete n i) [
  | yes e ↦ omega (arith, ap g e)
  | no e ↦ omega (arith, sum-term n i g (omega arith))
]

pub sum_longer : (m n : ℕ) (g : ℕ → ℕ) → m ≤ n → sum m g ≤ sum n g
unfolding sum
sum_longer m zero g le = let e : m ≡ 0 = omega arith in omega (arith, ap (λ (x : ℕ). sum x g) e)
sum_longer m (suc n) g le = elim (ℕ_discrete m (suc n)) [
  | yes e ↦ omega (arith, ap (λ (x : ℕ). sum x g) e)
  | no e ↦ omega (arith, sum_longer m n g (omega arith))
]

abbrev pub is_ref : ℕ → ℕ → ℕ
is_ref r id = if r == id then 1 else 0

-- 1 for a used descriptor with this reference
abbrev pub holds_ref : ℕ → Fd → ℕ
holds_ref id e = if e.used then is_ref e.file_ref id else 0

unfoldable pub count_fds : ℕ → (ℕ → Fd) → ℕ
count_fds id fds = sum edge_max_fd (λ f. holds_ref id (fds f))

unfoldable pub count_refs : ℕ → (ℕ → FdProc) → ℕ
count_refs id ps = sum edge_max_fd_procs (λ s. count_fds id (ps s).fds)

fds-change :
    (id f : ℕ) (e : Fd) (fds : ℕ → Fd)
    → f < edge_max_fd
    → count_fds id (upd fds f e) + holds_ref id (fds f) ≡ count_fds id fds + holds_ref id e
unfolding count_fds
fds-change id f e fds in_fds =
    let change =
      sum-change edge_max_fd f (λ j. holds_ref id (fds j)) (λ j. holds_ref id (upd fds f e j))
        in_fds (λ j ne. ap (holds_ref id) (upd_ne fds f e j ne)) in
    change
    ∙ ap (λ (x : Fd). sum edge_max_fd (λ j. holds_ref id (fds j)) + holds_ref id x)
        (upd_self fds f e)

pub procs-change :
    (id s : ℕ) (p : FdProc) (ps : ℕ → FdProc)
    → s < edge_max_fd_procs
    → count_refs id (upd ps s p) + count_fds id (ps s).fds ≡ count_refs id ps + count_fds id p.fds
unfolding count_refs
procs-change id s p ps in_procs =
    let change =
      sum-change edge_max_fd_procs s (λ j. count_fds id (ps j).fds)
        (λ j. count_fds id (upd ps s p j).fds) in_procs
        (λ j ne. ap (λ (x : FdProc). count_fds id x.fds) (upd_ne ps s p j ne)) in
    change
    ∙ ap (λ (x : FdProc). sum edge_max_fd_procs (λ j. count_fds id (ps j).fds) + count_fds id x.fds)
        (upd_self ps s p)

-- The write of a descriptor changes the count by what it held and what it holds.
pub put-count :
    (id s f : ℕ) (e : Fd) (k : Files)
    → s < edge_max_fd_procs
    → f < edge_max_fd
    → count_refs id (put_fd k s f e).procs + holds_ref id (fd_at k s f)
      ≡ count_refs id k.procs + holds_ref id e
unfolding put_fd
put-count id s f e k in_procs in_fds =
    let outer =
      procs-change id s (record (k.procs s) { fds = upd (k.procs s).fds f e }) k.procs in_procs in
    let inner = fds-change id f e (k.procs s).fds in_fds in regroup _ _ _ _ _ _ outer inner
  where
    regroup : (a b c d x y : ℕ) → a + b ≡ c + d → d + x ≡ b + y → a + x ≡ c + y
    regroup a b c d x y p q = omega arith

pub sum_zero : (n : ℕ) (g : ℕ → ℕ) → ((j : ℕ) → g j ≡ 0) → sum n g ≡ 0
unfolding sum
sum_zero zero g z = refl
sum_zero (suc n) g z = omega (arith, z n, sum_zero n g z)

-- Descriptors that are not used hold nothing.
pub none_held : (id : ℕ) (fds : ℕ → Fd) → ((f : ℕ) → (fds f).used ≡ false) → count_fds id fds ≡ 0
unfolding count_fds
none_held id fds z =
    sum_zero edge_max_fd (λ f. holds_ref id (fds f))
      (λ f. ap (λ (b : Bool). if b then is_ref (fds f).file_ref id else 0) (z f))

-- An unused reference counts nothing.
pub record Idle (t : ℕ → FileRef) : Type 0 where
  pub idle : (id : ℕ) → (t id).used ≡ false → (t id).refs ≡ 0

pub put-refs :
    (r id : ℕ) (t : ℕ → FileRef)
    → Idle t
    → 0 < id
    → id < edge_max_file_refs
    → (file_ref_put r t id).refs ≡ (t id).refs - is_ref r id
unfolding file_ref_put
put-refs r id t z lo hi = let q = z.idle r in ground arith

pub put-Idle : (r : ℕ) (t : ℕ → FileRef) → Idle t → Idle (file_ref_put r t)
unfolding file_ref_put
put-Idle r t z = record { idle = λ id u. let q = z.idle id in ground arith }

pub get-refs :
    (r id : ℕ) (t t' : ℕ → FileRef)
    → file_ref_get r t ≡ some t'
    → (t' id).refs ≡ (t id).refs + is_ref r id
unfolding file_ref_get
get-refs r id t t' h = elim (Bool-cases (is_held r t)) [
  | inl q ↦
      let w : upd t r (record (t r) { refs = (t r).refs + 1 }) ≡ t' = ground arith in
      subst (λ (x : ℕ → FileRef). (x id).refs ≡ (t id).refs + is_ref r id) w (ground arith)
  | inr q ↦ absurd (ground arith)
]

pub get-Idle : (r : ℕ) (t t' : ℕ → FileRef) → Idle t → file_ref_get r t ≡ some t' → Idle t'
unfolding file_ref_get
get-Idle r t t' z h = elim (Bool-cases (is_held r t)) [
  | inl q ↦
      let w : upd t r (record (t r) { refs = (t r).refs + 1 }) ≡ t' = ground arith in
      subst Idle w (record { idle = λ id u. let q' = z.idle id in ground arith })
  | inr q ↦ absurd (ground arith)
]

-- A reference that is allocated is in the table, and is counted once.
pub record Allocated (t : ℕ → FileRef) (r : ℕ) (t' : ℕ → FileRef) : Type 0 where
  pub counted : (id : ℕ) → 0 < id → (t' id).refs ≡ (t id).refs + is_ref r id
  pub still_Idle : Idle t'

alloc-from :
    (i n : ℕ) (t : ℕ → FileRef)
    → Idle t
    → Allocated t (file_ref_from i n t).0 (file_ref_from i n t).1
unfolding file_ref_from
alloc-from i zero t z = record { counted = λ id lo. ground arith; still_Idle = z }
alloc-from i (suc n) t z = elim (Bool-cases (t i).used) [
  | inl u ↦ rw u (alloc-from (i + 1) n t z)
  | inr u ↦
      let z0 = z.idle i u in
      rw u (record {
        counted = λ id lo. ground (arith, z0);
        still_Idle = record { idle = λ id u'. let q = z.idle id in ground (arith, q) };
      })
]

pub alloc-Allocated :
    (t : ℕ → FileRef) → Idle t → Allocated t (file_ref_alloc t).0 (file_ref_alloc t).1
unfolding file_ref_alloc
alloc-Allocated t z = alloc-from 1 (edge_max_file_refs - 1) t z
