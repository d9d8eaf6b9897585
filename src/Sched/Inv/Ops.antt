-- ===== src/Sched/Inv/Ops.antt =====
-- src/sys/scheduler.c: each state change keeps the invariant, and what it does to the queues.
use edge_os.Prelude.{
  ℕ, ◌≡◌, ◌≢◌, refl, ◌∙◌, ap, subst, true, false, ◌<◌, arith, Bool-cases, inl, inr, ℕ_discrete,
}
use edge_os.Prelude.Int.{pos, neg_one}
use edge_os.Dll.{has, erase, has-snoc}
use edge_os.Task.{
  Kernel, Cpu, Task, TaskState, runnable, running, blocked, zombie, unused, sched_max_cpus,
}
use edge_os.Sched.Queue.{rq_remove_locked}
use edge_os.Sched.Queue.Links.{on, core, SameRest, SameRest-trans, core-rq_remove_locked}
use edge_os.Sched.Ops.{
  cpu_by_id, remove_if_queued, assign, home_id, leave_queue, take_off, leave_other_cpu,
  set_assigned_cpu, set_state, enqueue_on, scheduler_cpu_id, scheduler_task_make_runnable,
  scheduler_task_set_blocked, scheduler_task_set_zombie, scheduler_task_set_running,
  scheduler_task_set_unused,
}
use edge_os.Sched.Rep.{Queues, drop, enq}
use edge_os.Sched.Inv.Defs.{Inv, Rep-frame, Waiting-core}
use edge_os.Sched.Inv.Leave.{
  already-Off, home_of, removed-Off, cpu_by_id_small, remove_if_queued-Off,
}
use edge_os.Sched.Inv.Settle.{Moved, Off-Moved, Moved-put, Moved-Inv, pushed-Inv}

module _ (k : Kernel) (c t : ℕ) where
  queued-yes : on k t ≡ true → remove_if_queued k c t ≡ rq_remove_locked k c t
  unfolding remove_if_queued
  queued-yes e = rw e

  queued-no : on k t ≡ false → remove_if_queued k c t ≡ k
  unfolding remove_if_queued
  queued-no e = rw e

  core-remove_if_queued :
      (a : ℕ) → t ≢ 0 → core ((remove_if_queued k c t).tasks a) ≡ core (k.tasks a)
  core-remove_if_queued a t_ne = elim (Bool-cases (on k t)) [
    | inl e ↦ rw (queued-yes e) (core-rq_remove_locked k c t t_ne e a)
    | inr e ↦ rw (queued-no e) refl
  ]

  home-set_assigned_cpu : ((set_assigned_cpu k t c).tasks t).assigned_cpu ≡ pos c
  unfolding set_assigned_cpu
  home-set_assigned_cpu = ground arith

  on-set_assigned_cpu : on (set_assigned_cpu k t c) t ≡ on k t
  unfolding set_assigned_cpu
  on-set_assigned_cpu = ground arith

module _ {k : Kernel} {q : Queues} (v : Inv k q) (t : ℕ) (t_ne : t ≢ 0) where
  left-Moved : Moved k (leave_queue k t) q t
  unfolding leave_queue home_id
  left-Moved = Off-Moved (remove_if_queued-Off v t t_ne (scheduler_cpu_id k))

  take_off-Moved : (st : TaskState) → Moved k (take_off k t st) q t
  unfolding take_off assign
  take_off-Moved st = Moved-put _ left-Moved refl refl refl refl

  state-take_off : (st : TaskState) → ((take_off k t st).tasks t).state ≡ st
  unfolding take_off assign
  state-take_off st = ground arith

  -- what `scheduler_task_make_runnable` has done before it sets the state
  same_cpu-Inv : (c : ℕ) → (k.tasks t).assigned_cpu ≡ pos c → Inv (set_assigned_cpu k t c) q
  unfolding set_assigned_cpu
  same_cpu-Inv c home = record {
    rep =
        Rep-frame _ q q v.rep (λ a. (ground arith, ground arith, ground arith)) (λ d. (refl, refl))
          λ d small. refl;
    waiting = λ d a small i. Waiting-core _ d a (ground arith) (v.waiting d a small i);
    idle_set = v.idle_set;
    idle_idle = λ d small. ground (arith, v.idle_idle d small);
    current_set = v.current_set;
  }

  core-set_assigned_cpu :
      (c a : ℕ) → a ≢ t → core ((set_assigned_cpu k t c).tasks a) ≡ core (k.tasks a)
  unfolding set_assigned_cpu
  core-set_assigned_cpu c a ne = ground arith

  idle-set_assigned_cpu : (c : ℕ) → ((set_assigned_cpu k t c).tasks t).is_idle ≡ (k.tasks t).is_idle
  unfolding set_assigned_cpu
  idle-set_assigned_cpu c = ground arith

  cpus-set_assigned_cpu : (c d : ℕ) → (set_assigned_cpu k t c).cpus d ≡ k.cpus d
  unfolding set_assigned_cpu
  cpus-set_assigned_cpu c d = refl

  rest-set_assigned_cpu : (c : ℕ) → SameRest k (set_assigned_cpu k t c)
  unfolding set_assigned_cpu
  rest-set_assigned_cpu c = refl

  -- the three ways through `leave_other_cpu`
  leave-off : (c : ℕ) → on k t ≡ false → leave_other_cpu k t c ≡ k
  unfolding leave_other_cpu
  leave-off c off = ground arith

  leave-same :
      (c d : ℕ)
      → on k t ≡ true
      → (k.tasks t).assigned_cpu ≡ pos d
      → d ≡ c
      → leave_other_cpu k t c ≡ k
  unfolding leave_other_cpu
  leave-same c d queued home e = ground arith

  leave-elsewhere :
      (c d : ℕ)
      → d < sched_max_cpus
      → on k t ≡ true
      → (k.tasks t).assigned_cpu ≡ pos d
      → d ≢ c
      → leave_other_cpu k t c ≡ rq_remove_locked k d t
  unfolding leave_other_cpu
  leave-elsewhere c d ds queued home ne =
      rw (queued, home) (ground (arith, cpu_by_id_small v t t_ne d ds))

  requeue-Moved :
      (c : ℕ)
      → c < sched_max_cpus
      → has t (q c) ≡ true
      → (k.tasks t).assigned_cpu ≡ pos c
      → Moved k (rq_remove_locked (set_assigned_cpu k t c) c t) q t
  requeue-Moved c small m home =
      let o = removed-Off (same_cpu-Inv c home) t t_ne c small m in
      record {
        rep = o.rep;
        flag = o.flag;
        cores = λ a ne. o.cores a ∙ core-set_assigned_cpu c a ne;
        idle = ap (λ (u : Task). u.is_idle) (o.cores t) ∙ idle-set_assigned_cpu c;
        currents = λ d. o.currents d ∙ ap (λ (u : Cpu). u.current) (cpus-set_assigned_cpu c d);
        idles = λ d. o.idles d ∙ ap (λ (u : Cpu). u.idle) (cpus-set_assigned_cpu c d);
        rest =
            SameRest-trans (rq_remove_locked (set_assigned_cpu k t c) c t) (rest-set_assigned_cpu c)
              o.rest;
      }

  -- Off its queue, and assigned to the CPU that it goes to.
  assigned-Moved :
      (c : ℕ)
      → c < sched_max_cpus
      → Moved k (remove_if_queued (set_assigned_cpu (leave_other_cpu k t c) t c) c t) q t
  assigned-Moved c small = elim (Bool-cases (on k t)) [
    | inr off ↦ rw (leave-off c off) (no_queue c k (Off-Moved (already-Off v t t_ne off)))
    | inl queued ↦
        let (d, ds, m, home) = home_of v t t_ne queued in
        elim (ℕ_discrete d c) [
          | yes e ↦ rw (leave-same c d queued home e) (
              rw (queued-yes (set_assigned_cpu k t c) c t (on-set_assigned_cpu k c t ∙ queued))
                (requeue-Moved c small (subst (λ z. has t (q z) ≡ true) e m) (home ∙ ap pos e)))
          | no ne ↦
              rw (leave-elsewhere c d ds queued home ne)
                (no_queue c (rq_remove_locked k d t) (Off-Moved (removed-Off v t t_ne d ds m)))
        ]
  ]
    where
      no_queue :
          (c : ℕ) (k1 : Kernel)
          → Moved k k1 q t
          → Moved k (remove_if_queued (set_assigned_cpu k1 t c) c t) q t
      no_queue c k1 w =
          rw (queued-no (set_assigned_cpu k1 t c) c t (on-set_assigned_cpu k1 c t ∙ w.flag))
            (unfold set_assigned_cpu in Moved-put _ w refl refl refl refl)

  home-assigned :
      (c : ℕ)
      → ((remove_if_queued (set_assigned_cpu (leave_other_cpu k t c) t c) c t).tasks t).assigned_cpu
        ≡ pos c
  home-assigned c =
      ap (λ (u : Task). u.assigned_cpu)
        (core-remove_if_queued (set_assigned_cpu (leave_other_cpu k t c) t c) c t t t_ne)
      ∙ home-set_assigned_cpu (leave_other_cpu k t c) c t

  -- The task is off its old queue and at the end of that of its new CPU.
  enqueue_on-Inv :
      (c : ℕ)
      → c < sched_max_cpus
      → (k.tasks t).is_idle ≡ false
      → Inv (enqueue_on k t c) (enq (drop q t) c t)
  unfolding enqueue_on set_state
  enqueue_on-Inv c small busy =
      let w = assigned-Moved c small in
      let w' = Moved-put _ w refl refl refl refl in
      pushed-Inv v w' c small t_ne (ground (arith, home-assigned c)) (ground arith) (w'.idle ∙ busy)

  cpu_by_id-small : (c : ℕ) → cpu_by_id c < sched_max_cpus
  unfolding cpu_by_id
  cpu_by_id-small c = ground arith

  module _ (busy : (k.tasks t).is_idle ≡ false) where
    blocked-eq : scheduler_task_set_blocked k t ≡ take_off k t blocked
    unfolding scheduler_task_set_blocked
    blocked-eq = ground arith

    zombie-eq : scheduler_task_set_zombie k t ≡ take_off k t zombie
    unfolding scheduler_task_set_zombie
    zombie-eq = ground arith

    running-eq : scheduler_task_set_running k t ≡ take_off k t running
    unfolding scheduler_task_set_running
    running-eq = ground arith

    runnable-eq : (cpu : ℕ) → scheduler_task_make_runnable k t cpu ≡ enqueue_on k t (cpu_by_id cpu)
    unfolding scheduler_task_make_runnable
    runnable-eq cpu = ground arith

    unused-eq : scheduler_task_set_unused k t ≡ assign (leave_queue k t) t neg_one unused
    unfolding scheduler_task_set_unused
    unused-eq = ground arith

    -- Blocking a task, ending it and choosing it to run each take it off the queue that it is on,
    -- set its state, and keep the invariant with the other tasks where they were.
    pub set_state-Inv :
        (Inv (scheduler_task_set_blocked k t) (drop q t)
          × (((scheduler_task_set_blocked k t).tasks t).state ≡ blocked))
        × (Inv (scheduler_task_set_zombie k t) (drop q t)
            × (((scheduler_task_set_zombie k t).tasks t).state ≡ zombie))
        × (Inv (scheduler_task_set_running k t) (drop q t)
            × (((scheduler_task_set_running k t).tasks t).state ≡ running))
    set_state-Inv =
        rw (blocked-eq, zombie-eq, running-eq)
          (
            (Moved-Inv v (take_off-Moved blocked), state-take_off blocked),
            (Moved-Inv v (take_off-Moved zombie), state-take_off zombie),
            (Moved-Inv v (take_off-Moved running), state-take_off running),
          )

    -- A slot that is given up is on no queue, unused, and assigned to no CPU.
    pub set_unused-Inv :
        Inv (scheduler_task_set_unused k t) (drop q t)
        × (((scheduler_task_set_unused k t).tasks t).state ≡ unused)
        × (((scheduler_task_set_unused k t).tasks t).assigned_cpu ≡ neg_one)
    set_unused-Inv = rw unused-eq (
        unfold assign in
        (Moved-Inv v (Moved-put _ left-Moved refl refl refl refl), ground arith, ground arith))

    -- A task that is made runnable waits behind the others of the CPU that it goes to, whichever
    -- queue it was on before; all other tasks wait on in their order.
    pub make_runnable-Inv :
        (cpu : ℕ)
        → Inv (scheduler_task_make_runnable k t cpu) (enq (drop q t) (cpu_by_id cpu) t)
          × (((scheduler_task_make_runnable k t cpu).tasks t).state ≡ runnable)
    make_runnable-Inv cpu =
        let i = enqueue_on-Inv (cpu_by_id cpu) (cpu_by_id-small cpu) busy in
        rw (runnable-eq cpu) (
          i,
          (i.waiting (cpu_by_id cpu) t (cpu_by_id-small cpu)
              (ground (arith, has-snoc t t (erase t (q (cpu_by_id cpu)))))).ready,
        )
