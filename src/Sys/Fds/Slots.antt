-- ===== src/Sys/Fds/Slots.antt =====
-- src/sys/syscall.c: the search for the slot of a process.
use edge_os.Prelude.{
  ℕ, zero, suc, true, false, ◌+◌, ◌≤◌, ◌<◌, ◌≡◌, ◌≢◌, refl, ap, ◌∙◌, none, some, ◌==◌, ==_iff,
  arith, Bool-cases, subst, inl, inr, ℕ_discrete,
}
use edge_os.Sys.Fds.{FdProc, Files, edge_max_fd_procs, find_proc, fd_proc_for_pid}
use edge_os.Sys.Fds.Keep.{Counted}

-- the slot of a process, in a state with right counts
pub record At (extra : ℕ → ℕ) (pid s : ℕ) (k : Files) : Type 0 where
  pub counted : Counted extra k
  pub in_procs : s < edge_max_fd_procs
  pub pid_is : (k.procs s).pid ≡ pid
  pub first : fd_proc_for_pid pid k ≡ some s

-- The search looks at the pids alone, and finds the only slot with a pid.
pub find-same :
    (pid i n : ℕ) (ps qs : ℕ → FdProc)
    → ((j : ℕ) → (qs j).pid ≡ (ps j).pid)
    → find_proc pid i n qs ≡ find_proc pid i n ps
unfolding find_proc
find-same pid i zero ps qs h = refl
find-same pid i (suc n) ps qs h =
    let here = ap (λ (x : ℕ). x == pid) (h i) in rw (here, find-same pid (i + 1) n ps qs h) refl

pub find-only :
    (pid i n s : ℕ) (ps : ℕ → FdProc)
    → i ≤ s
    → s < i + n
    → (ps s).pid ≡ pid
    → ((j : ℕ) → j ≢ s → (ps j).pid ≡ pid → i ≤ j → j < i + n → ⊥)
    → find_proc pid i n ps ≡ some s
unfolding find_proc
find-only pid i zero s ps lo hi is only = absurd (omega arith)
find-only pid i (suc n) s ps lo hi is only = elim (ℕ_discrete i s) [
  | yes q ↦
      let here : ((ps i).pid == pid) ≡ true = (==_iff _ _).1 (ap (λ (j : ℕ). (ps j).pid) q ∙ is) in
      rw here (ap some q)
  | no q ↦
      let other : ((ps i).pid == pid) ≡ false = elim (Bool-cases ((ps i).pid == pid)) [
        | inl t ↦ absurd (only i q ((==_iff _ _).0 t) (omega arith) (omega arith))
        | inr t ↦ t
      ] in
      rw other (
        find-only pid (i + 1) n s ps (omega arith) (omega arith) is
          (λ j ne e l h. only j ne e (omega arith) (omega arith)))
]

pub find-none :
    (pid i n : ℕ) (ps : ℕ → FdProc)
    → find_proc pid i n ps ≡ none
    → (j : ℕ) → i ≤ j
    → j < i + n
    → (ps j).pid ≢ pid
unfolding find_proc
find-none pid i zero ps h j lo hi = absurd (omega arith)
find-none pid i (suc n) ps h j lo hi = elim (Bool-cases ((ps i).pid == pid)) [
  | inl q ↦ absurd (ground arith)
  | inr q ↦ elim (ℕ_discrete i j) [
    | yes e ↦ λ p. absurd (
        let t : ((ps i).pid == pid) ≡ true = (==_iff _ _).1 (ap (λ (x : ℕ). (ps x).pid) e ∙ p) in
        cc)
    | no ne ↦ find-none pid (i + 1) n ps (rw q at h) j (omega arith) (omega arith)
  ]
]

pub find-found :
    (pid i n s : ℕ) (ps : ℕ → FdProc)
    → find_proc pid i n ps ≡ some s
    → (s < i + n) × ((ps s).pid ≡ pid)
unfolding find_proc
find-found pid i zero s ps h = absurd (cc)
find-found pid i (suc n) s ps h = elim (Bool-cases ((ps i).pid == pid)) [
  | inl q ↦
      let e : i ≡ s = ground arith in
      (omega (arith, e), subst (λ (j : ℕ). (ps j).pid ≡ pid) e (ground arith))
  | inr q ↦ let r = find-found pid (i + 1) n s ps (rw q at h) in (omega (arith, r.0), r.1)
]
