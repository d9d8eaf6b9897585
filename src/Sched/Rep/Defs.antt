-- ===== src/Sched/Rep/Defs.antt =====
-- src/sys/scheduler.c: the structure of all run queues, apart from what states their tasks have.
use edge_os.Prelude.{ℕ, ◌≡◌, ◌≢◌, true, List, ◌<◌}
use edge_os.Dll.{has, last_or, IsDll}
use edge_os.Task.{Kernel, sched_max_cpus}
use edge_os.Sched.Queue.Links.{pv, nx, on}

-- for each CPU the tasks that wait, the next one first
abbrev pub Queues : Type 0
Queues = ℕ → List ℕ

pub record OnCpu (k : Kernel) (c : ℕ) (xs : List ℕ) : Type 0 where
  pub dll : IsDll (pv k) (nx k) (k.cpus c).rq_head xs
  pub tail : (k.cpus c).rq_tail ≡ last_or 0 xs

pub record Rep (k : Kernel) (q : Queues) : Type 0 where
  pub on_cpu : (c : ℕ) → c < sched_max_cpus → OnCpu k c (q c)
  -- the flag tells whether a task is on some queue
  pub flagged : (c a : ℕ) → c < sched_max_cpus → has a (q c) ≡ true → on k a ≡ true
  pub listed :
      (a : ℕ) → a ≢ 0 → on k a ≡ true → (c : ℕ) × (c < sched_max_cpus) × (has a (q c) ≡ true)
  -- no task is on two
  pub apart :
      (c d a : ℕ)
      → c < sched_max_cpus
      → d < sched_max_cpus
      → has a (q c) ≡ true
      → has a (q d) ≡ true
      → c ≡ d
