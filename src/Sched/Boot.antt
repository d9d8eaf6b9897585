-- ===== src/Sched/Boot.antt =====
-- src/sys/scheduler.c: `scheduler_init` and `scheduler_set_boot_current` set up the invariant.
use mathlib.Core.Bool.{false≢true}
use edge_os.Prelude.{
  ℕ, zero, suc, ◌≡◌, ◌≢◌, refl, ◌∙◌, sym, true, false, [], ◌<◌, arith, ℕ_discrete, ap, Bool-cases,
  inl, inr,
}
use edge_os.Prelude.Int.{pos}
use edge_os.Task.{Kernel, sched_max_cpus, idle_at, running}
use edge_os.Sched.Queue.Links.{on}
use edge_os.Sched.Ops.{
  init_cpu, init_cpus, scheduler_init, scheduler_set_boot_current, scheduler_cpu_id, assign,
  remove_if_queued,
}
use edge_os.Sched.Rep.{Queues, drop}
use edge_os.Sched.Inv.{Inv, Off, Moved, Off-Moved, already-Off, removed-Off, Moved-put, Moved-Inv}
use edge_os.Dll.{has}
use edge_os.Sched.Switch.{set_current}
use edge_os.Sched.Switch.Dispatch.{Runs, set_current-Inv}
use edge_os.Sched.Switch.Turn.{cpu_local_eq}

-- what the loop of `scheduler_init` has done for the CPUs below `n`
record Booted (k : Kernel) (n : ℕ) : Type 0 where
  idle : (c : ℕ) → c < n → (k.cpus c).idle ≡ idle_at c
  current : (c : ℕ) → c < n → (k.cpus c).current ≡ idle_at c
  head : (c : ℕ) → c < n → (k.cpus c).rq_head ≡ 0
  tail : (c : ℕ) → c < n → (k.cpus c).rq_tail ≡ 0
  idles : (c : ℕ) → c < n → (k.tasks (idle_at c)).is_idle ≡ true
  none_queued : (a : ℕ) → on k a ≡ false

init_cpu-Booted : {k : Kernel} (n : ℕ) → Booted k n → Booted (init_cpu k n) (suc n)
unfolding init_cpu
init_cpu-Booted {k} n b = record {
  idle = λ c h. elim (ℕ_discrete c n) [
    | yes e ↦ ground arith
    | no ne ↦ ground (arith, b.idle c (omega arith))
  ];
  current = λ c h. elim (ℕ_discrete c n) [
    | yes e ↦ ground arith
    | no ne ↦ ground (arith, b.current c (omega arith))
  ];
  head = λ c h. elim (ℕ_discrete c n) [
    | yes e ↦ ground arith
    | no ne ↦ ground (arith, b.head c (omega arith))
  ];
  tail = λ c h. elim (ℕ_discrete c n) [
    | yes e ↦ ground arith
    | no ne ↦ ground (arith, b.tail c (omega arith))
  ];
  idles = λ c h. elim (ℕ_discrete c n) [
    | yes e ↦ ground arith
    | no ne ↦ ground (arith, b.idles c (omega arith))
  ];
  none_queued = λ a. ground (arith, b.none_queued a);
}

init_cpus-Booted : (n : ℕ) (k : Kernel) → ((a : ℕ) → on k a ≡ false) → Booted (init_cpus n k) n
unfolding init_cpus
init_cpus-Booted zero k h = record {
  idle = λ c i. absurd (omega arith);
  current = λ c i. absurd (omega arith);
  head = λ c i. absurd (omega arith);
  tail = λ c i. absurd (omega arith);
  idles = λ c i. absurd (omega arith);
  none_queued = h;
}
init_cpus-Booted (suc n) k h = init_cpu-Booted n (init_cpus-Booted n k h)

scheduler_init-eq :
    (k : Kernel)
    → k.ready ≡ false
    → scheduler_init k ≡ record (init_cpus sched_max_cpus k) { local_cpu_id = 0; ready = true }
unfolding scheduler_init
scheduler_init-eq k down = ground arith

Booted-Inv :
    (k : Kernel)
    → Booted k sched_max_cpus
    → Inv (record k { local_cpu_id = 0; ready = true }) (λ c. [])
Booted-Inv k b = record {
  rep = record {
    on_cpu = λ c small. record {
      dll = record { chain = tt; head_eq = b.head c small; distinct = tt };
      tail = b.tail c small;
    };
    flagged = λ c a small i. cc;
    listed = λ a a_ne i. let off = b.none_queued a in absurd (false≢true (sym off ∙ i));
    apart = λ c d a cs ds i j. absurd (false≢true i);
  };
  waiting = λ c a small i. absurd (false≢true i);
  idle_set = λ c small. ground (arith, b.idle c small);
  idle_idle = λ c small. rw (b.idle c small) (b.idles c small);
  current_set = λ c small. ground (arith, b.current c small);
}

-- From memory in which no task is queued `scheduler_init` sets up empty queues and an idle task for
-- every CPU: the invariant holds, and the scheduler is ready.
pub scheduler_init-Inv :
    (k : Kernel)
    → k.ready ≡ false
    → ((a : ℕ) → on k a ≡ false)
    → Inv (scheduler_init k) (λ c. []) × ((scheduler_init k).ready ≡ true)
scheduler_init-Inv k down h =
    rw (scheduler_init-eq k down)
      (Booted-Inv (init_cpus sched_max_cpus k) (init_cpus-Booted sched_max_cpus k h), refl)

module _ {k : Kernel} {q : Queues} (v : Inv k q) (c t : ℕ) (up : k.ready ≡ true)
    (here : k.local_cpu_id ≡ c) (small : c < sched_max_cpus) (t_ne : t ≢ 0)
    (busy : (k.tasks t).is_idle ≡ false) (queued_here : on k t ≡ true → has t (q c) ≡ true) where
  left : Kernel
  left = remove_if_queued k c t

  boot_current-eq :
      scheduler_set_boot_current k t
      ≡ set_current (assign left t (pos (scheduler_cpu_id left)) running) c t
  unfolding scheduler_set_boot_current set_current left
  boot_current-eq = rw (cpu_local_eq v c up here small, scheduler_set_boot_current) (ground arith)

  left-Off : Off k left q t
  unfolding left remove_if_queued
  left-Off = elim (Bool-cases (on k t)) [
    | inl e ↦ rw e (removed-Off v t t_ne c small (queued_here e))
    | inr e ↦ rw e (already-Off v t t_ne e)
  ]

  left-Moved : Moved k left q t
  left-Moved = Off-Moved left-Off

  boot-Moved : Moved k (assign left t (pos (scheduler_cpu_id left)) running) q t
  unfolding assign
  boot-Moved = Moved-put _ left-Moved refl refl refl refl

  boot-Runs : Runs (set_current (assign left t (pos (scheduler_cpu_id left)) running) c t) c t
  unfolding assign set_current scheduler_cpu_id
  boot-Runs =
      let local : left.local_cpu_id ≡ c =
        ap (λ (z : Kernel). z.local_cpu_id) left-Moved.rest ∙ here in
      let still_busy : (left.tasks t).is_idle ≡ false = left-Moved.idle ∙ busy in
      record {
        up = ap (λ (z : Kernel). z.ready) left-Moved.rest ∙ up;
        here = local;
        small = small;
        current = ground arith;
        state = ground arith;
        home = ground (arith, local, small);
        busy = ground (arith, still_busy);
      }

  -- Where the scheduler is up, `scheduler_set_boot_current` takes a task that is not idle, and is on
  -- the queue of this CPU or on none, off that queue, and makes it the one that this CPU runs, as its
  -- current task, assigned to it and running; all other tasks wait on in their order.
  pub set_boot_current-Runs :
      Inv (scheduler_set_boot_current k t) (drop q t) × Runs (scheduler_set_boot_current k t) c t
  set_boot_current-Runs =
      rw boot_current-eq (set_current-Inv c t (Moved-Inv v boot-Moved) t_ne, boot-Runs)
