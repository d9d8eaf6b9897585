-- ===== src/Proc/Table/Find.antt =====
-- src/sys/process.c: what the searches of the process table find.
use edge_os.Prelude.{
  ℕ, zero, suc, Bool, true, false, ◌+◌, ◌≤◌, ◌<◌, ◌≡◌, refl, ap, ◌∙◌, fun_ext, ◌≢◌, arith, not,
  ◌&&◌, ℕ_discrete,
}
use edge_os.Prelude.Int.{ℤ, ==ℤ→eq}
use edge_os.Task.{Kernel, Ptr, task_at, proc_max_tasks}
use edge_os.Proc.Table.{
  find_slot, holds_pid, task_find_by_pid, task_alloc, is_unused, user_as_max_tasks,
}

-- `p` is the first of the slots from `i` up to `i + n` that pass the test, or NULL where none does.
pub data First (test : ℕ → Bool) (n i : ℕ) : Ptr → Type 0 where
  nowhere : ((j : ℕ) → i ≤ j → j < i + n → test j ≡ false) → First test n i 0
  somewhere :
      (j : ℕ)
      → i ≤ j
      → j < i + n
      → test j ≡ true
      → ((m : ℕ) → i ≤ m → m < j → test m ≡ false)
      → First test n i (task_at j)

widen :
    (test : ℕ → Bool) (n i : ℕ) (p : Ptr)
    → test i ≡ false
    → First test n (i + 1) p
    → First test (suc n) i p
widen test n i p e (nowhere none) = nowhere (λ j lo hi. elim (ℕ_discrete j i) [
  | yes q ↦ ap test q ∙ e
  | no ne ↦ none j (omega arith) (omega arith)
])
widen test n i p e (somewhere j lo hi pass before) =
    somewhere j (omega arith) (omega arith) pass (λ m lo' hi'. elim (ℕ_discrete m i) [
      | yes q ↦ ap test q ∙ e
      | no ne ↦ before m (omega arith) hi'
    ])

find_slot-First : (test : ℕ → Bool) (n i : ℕ) → First test n i (find_slot test n i)
unfolding find_slot
find_slot-First test zero i = nowhere (λ j lo hi. absurd (omega arith))
find_slot-First test (suc n) i = go (test i) refl (find_slot-First test n (i + 1))
  where
    go :
        (b : Bool)
        → test i ≡ b
        → First test n (i + 1) (find_slot test n (i + 1))
        → First test (suc n) i (elim b [ true ↦ task_at i | false ↦ find_slot test n (i + 1) ])
    go true e rest = somewhere i (omega arith) (omega arith) e (λ m lo hi. absurd (omega arith))
    go false e rest = widen test n i _ e rest

-- `task_find_by_pid` gives the first slot in use whose task has the pid, and NULL only where there
-- is none; `task_alloc` gives the first unused slot of those that have user memory, and NULL only
-- where all of them are in use.
pub table-First :
    (k : Kernel) (pid : ℤ)
    → First (holds_pid k pid) proc_max_tasks 0 (task_find_by_pid k pid)
      × First (λ i. is_unused (k.tasks (task_at i)).state) user_as_max_tasks 0 (task_alloc k)
unfolding task_find_by_pid task_alloc
table-First k pid = (find_slot-First _ proc_max_tasks 0, find_slot-First _ user_as_max_tasks 0)

-- the task that a search by pid finds has the pid
pub pid-task_find_by_pid :
    (k : Kernel) (pid : ℤ)
    → task_find_by_pid k pid ≢ 0
    → (k.tasks (task_find_by_pid k pid)).pid ≡ pid
pid-task_find_by_pid k pid ne = go (task_find_by_pid k pid) (table-First k pid).0 ne
  where
    second : (a b : Bool) → (not a && b) ≡ true → b ≡ true
    second a b h = ground arith

    go : (p : Ptr) → First (holds_pid k pid) proc_max_tasks 0 p → p ≢ 0 → (k.tasks p).pid ≡ pid
    go p (nowhere none) ne = absurd (ne refl)
    go p (somewhere j lo hi pass before) ne =
        ==ℤ→eq _ pid (second (is_unused (k.tasks (task_at j)).state) _ pass)

-- The search depends on the states and the pids alone.
pub task_find_by_pid-same :
    (k k' : Kernel) (pid : ℤ)
    → ((a : ℕ) → (k'.tasks a).state ≡ (k.tasks a).state)
    → ((a : ℕ) → (k'.tasks a).pid ≡ (k.tasks a).pid)
    → task_find_by_pid k' pid ≡ task_find_by_pid k pid
unfolding task_find_by_pid
task_find_by_pid-same k k' pid states pids =
    ap (λ test. find_slot test proc_max_tasks 0)
      (fun_ext (λ i. rw (states (task_at i), pids (task_at i)) refl))
