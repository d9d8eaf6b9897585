-- ===== src/Sched/Inv/Settle.antt =====
-- src/sys/scheduler.c: between the removal of a task and what follows, the task itself may change.
use edge_os.Prelude.{ℕ, ◌≡◌, ◌≢◌, refl, ◌∙◌, sym, ap, subst, true, false, ◌<◌, arith, ℕ_discrete}
use edge_os.Prelude.Int.{pos}
use edge_os.Dll.{has, erase, erase-has, has-snoc}
use edge_os.Task.{Kernel, Task, put, runnable, sched_max_cpus}
use edge_os.Sched.Queue.{rq_link_tail, rq_push_tail_locked}
use edge_os.Sched.Queue.Links.{pv, nx, on, core, SameRest}
use edge_os.Sched.Queue.Moves.{core-rq_link_tail, cpus-rq_link_tail, rq_push_tail_locked-eq}
use edge_os.Sched.Rep.{Queues, Rep, drop, enq, rq_link_tail-Rep}
use edge_os.Sched.Inv.Defs.{Inv, Waiting, Rep-frame, Waiting-core}
use edge_os.Sched.Inv.Leave.{Off}

-- `t` is on no queue and may have changed; all else but links and queue ends is as it was.
pub record Moved (k k' : Kernel) (q : Queues) (t : ℕ) : Type 0 where
  pub rep : Rep k' (drop q t)
  pub flag : on k' t ≡ false
  pub cores : (a : ℕ) → a ≢ t → core (k'.tasks a) ≡ core (k.tasks a)
  pub idle : (k'.tasks t).is_idle ≡ (k.tasks t).is_idle
  pub currents : (c : ℕ) → (k'.cpus c).current ≡ (k.cpus c).current
  pub idles : (c : ℕ) → (k'.cpus c).idle ≡ (k.cpus c).idle
  pub rest : SameRest k k'

pub Off-Moved : {k k' : Kernel} {q : Queues} {t : ℕ} → Off k k' q t → Moved k k' q t
Off-Moved {t = t} o = record {
  rep = o.rep;
  flag = o.flag;
  cores = λ a ne. o.cores a;
  idle = ap (λ (u : Task). u.is_idle) (o.cores t);
  currents = o.currents;
  idles = o.idles;
  rest = o.rest;
}

-- A write to `t` that spares its links.
pub Moved-put :
    {k k' : Kernel} {q : Queues} {t : ℕ} (u : Task)
    → Moved k k' q t
    → u.rq_prev ≡ pv k' t
    → u.rq_next ≡ nx k' t
    → u.on_runqueue ≡ on k' t
    → u.is_idle ≡ (k'.tasks t).is_idle
    → Moved k (put k' t u) q t
Moved-put {k' = k'} {q = q} {t = t} u m p n f i = record {
  rep =
      Rep-frame (put k' t u) (drop q t) (drop q t) m.rep
        (λ a. (ground arith, ground arith, ground arith)) (λ c. (refl, refl)) λ c small. refl;
  flag = ground (arith, m.flag);
  cores = λ a ne. ground (arith, m.cores a ne);
  idle = ground (arith, m.idle);
  currents = m.currents;
  idles = m.idles;
  rest = m.rest;
}

module _ {k k' : Kernel} {q : Queues} {t : ℕ} (v : Inv k q) (m : Moved k k' q t) where
  same_idle : (a : ℕ) → (k'.tasks a).is_idle ≡ (k.tasks a).is_idle
  same_idle a = elim (ℕ_discrete a t) [
    | yes e ↦ rw e m.idle
    | no ne ↦ ap (λ (u : Task). u.is_idle) (m.cores a ne)
  ]

  still-Waiting : (c a : ℕ) → c < sched_max_cpus → has a (erase t (q c)) ≡ true → Waiting k' c a
  still-Waiting c a small i =
      let old = erase-has a t (q c) (v.rep.on_cpu c small).dll.distinct i in
      Waiting-core k' c a (m.cores a old.0) (v.waiting c a small old.1)

  -- The invariant holds again, with `t` on no queue.
  pub Moved-Inv : Inv k' (drop q t)
  Moved-Inv = record {
    rep = m.rep;
    waiting = still-Waiting;
    idle_set = λ c small e. v.idle_set c small (sym (m.idles c) ∙ e);
    idle_idle = λ c small. rw (m.idles c) (same_idle _ ∙ v.idle_idle c small);
    current_set = λ c small e. v.current_set c small (sym (m.currents c) ∙ e);
  }

  -- So it does with `t` at the end of the queue of the CPU that it is assigned to.
  module _ (c : ℕ) (small : c < sched_max_cpus) (t_ne : t ≢ 0) where
    pub pushed-Inv :
        (k'.tasks t).assigned_cpu ≡ pos c
        → (k'.tasks t).state ≡ runnable
        → (k'.tasks t).is_idle ≡ false
        → Inv (rq_push_tail_locked k' c t) (enq (drop q t) c t)
    pushed-Inv home ready busy = rw (rq_push_tail_locked-eq k' c t t_ne m.flag) (record {
      rep = rq_link_tail-Rep c t m.rep small t_ne m.flag;
      waiting = λ d a ds i. elim (ℕ_discrete a t) [
        | yes e ↦ only_here d a ds e i
        | no ne ↦
            Waiting-core (rq_link_tail k' c t) d a (core-rq_link_tail k' c t a)
              (still-Waiting d a ds (was d a ne i))
      ];
      idle_set = λ d ds e. v.idle_set d ds (sym (m.idles d) ∙ sym (idle_now d) ∙ e);
      idle_idle = λ d ds. rw (idle_now d) (
          ap (λ (u : Task). u.is_idle) (core-rq_link_tail k' c t _)
          ∙ rw (m.idles d) (same_idle _ ∙ v.idle_idle d ds));
      current_set = λ d ds e. v.current_set d ds (sym (m.currents d) ∙ sym (current_now d) ∙ e);
    })
      where
        was : (d a : ℕ) → a ≢ t → has a (enq (drop q t) c t d) ≡ true → has a (erase t (q d)) ≡ true
        was d a ne i = ground (arith, has-snoc a t (erase t (q d)))

        gone : (d : ℕ) → d < sched_max_cpus → d ≢ c → has t (enq (drop q t) c t d) ≡ true → ⊥
        gone d ds ne i =
            (erase-has t t (q d) (v.rep.on_cpu d ds).dll.distinct (ground arith)).0 refl

        only_here :
            (d a : ℕ)
            → d < sched_max_cpus
            → a ≡ t
            → has a (enq (drop q t) c t d) ≡ true
            → Waiting (rq_link_tail k' c t) d a
        only_here d a ds e i = elim (ℕ_discrete d c) [
          | yes same ↦
              rw (e, same)
                (Waiting-core {k = k'} (rq_link_tail k' c t) c t (core-rq_link_tail k' c t t)
                  (record { home = home; ready = ready; busy = busy }))
          | no ne ↦ absurd (gone d ds ne (subst (λ z. has z (enq (drop q t) c t d) ≡ true) e i))
        ]

        idle_now : (d : ℕ) → ((rq_link_tail k' c t).cpus d).idle ≡ (k'.cpus d).idle
        idle_now d = ground (arith, cpus-rq_link_tail k' c t d)

        current_now : (d : ℕ) → ((rq_link_tail k' c t).cpus d).current ≡ (k'.cpus d).current
        current_now d = ground (arith, cpus-rq_link_tail k' c t d)
