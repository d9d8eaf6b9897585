-- ===== src/Sched/Inv/Leave.antt =====
-- src/sys/scheduler.c: the removal that starts every change of a task's state.
use mathlib.Core.Bool.{false≢true}
use edge_os.Prelude.{ℕ, ◌≡◌, ◌≢◌, refl, ◌∙◌, sym, true, false, ◌<◌, arith, Bool-cases, inl, inr}
use edge_os.Prelude.Int.{pos}
use edge_os.Dll.{has, erase_absent, prev-ne_self}
use edge_os.Task.{Kernel, sched_max_cpus}
use edge_os.Sched.Queue.{rq_remove_locked}
use edge_os.Sched.Queue.Links.{
  pv, nx, on, core, SameRest, on-rq_remove_locked, core-rq_remove_locked, rest-rq_remove_locked,
  cpus-rq_remove_locked,
}
use edge_os.Sched.Ops.{remove_if_queued, cpu_by_id, cpu_or}
use edge_os.Sched.Rep.{Queues, Rep, drop, rq_remove_locked-Rep}
use edge_os.Sched.Inv.Defs.{Inv, Rep-frame}

-- `t` is off its queue, and all else but links and queue ends is as it was.
pub record Off (k k' : Kernel) (q : Queues) (t : ℕ) : Type 0 where
  pub rep : Rep k' (drop q t)
  pub flag : on k' t ≡ false
  pub cores : (a : ℕ) → core (k'.tasks a) ≡ core (k.tasks a)
  pub currents : (c : ℕ) → (k'.cpus c).current ≡ (k.cpus c).current
  pub idles : (c : ℕ) → (k'.cpus c).idle ≡ (k.cpus c).idle
  pub rest : SameRest k k'

module _ {k : Kernel} {q : Queues} (v : Inv k q) (t : ℕ) (t_ne : t ≢ 0) where
  -- a task that is on no queue is in none of the lists
  pub absent : (c : ℕ) → c < sched_max_cpus → on k t ≡ false → has t (q c) ≡ false
  absent c small off = elim (Bool-cases (has t (q c))) [
    | inl e ↦ absurd (false≢true (sym off ∙ v.rep.flagged c t small e))
    | inr e ↦ e
  ]

  pub already-Off : on k t ≡ false → Off k k q t
  already-Off e = record {
    rep =
        Rep-frame k q (drop q t) v.rep (λ a. (refl, refl, refl)) (λ c. (refl, refl))
          λ c small. erase_absent t (q c) (absent c small e);
    flag = e;
    cores = λ a. refl;
    currents = λ c. refl;
    idles = λ c. refl;
    rest = refl;
  }

  -- The CPU that a queued task names is the one whose queue it is on.
  pub home_of :
      on k t ≡ true
      → (c : ℕ) × (c < sched_max_cpus) × (has t (q c) ≡ true) × ((k.tasks t).assigned_cpu ≡ pos c)
  home_of e =
      let (c, small, m) = v.rep.listed t t_ne e in (c, small, m, (v.waiting c t small m).home)

  pub removed-Off :
      (c : ℕ) → c < sched_max_cpus → has t (q c) ≡ true → Off k (rq_remove_locked k c t) q t
  removed-Off c small m =
      let e = v.rep.flagged c t small m in
      let p = prev-ne_self (pv k) (nx k) t (k.cpus c).rq_head (q c) (v.rep.on_cpu c small).dll m in
      record {
        rep = rq_remove_locked-Rep c t v.rep small m;
        flag = ground (arith, on-rq_remove_locked k c t t_ne e t);
        cores = core-rq_remove_locked k c t t_ne e;
        currents = λ d. ground (arith, cpus-rq_remove_locked k c t t_ne e d p);
        idles = λ d. ground (arith, cpus-rq_remove_locked k c t t_ne e d p);
        rest = rest-rq_remove_locked k c t t_ne e;
      }

  pub cpu_by_id_small : (c : ℕ) → c < sched_max_cpus → cpu_by_id c ≡ c
  unfolding cpu_by_id
  cpu_by_id_small c small = ground arith

  -- `cpu = cpu_by_id(...assigned_cpu...); if (t->on_runqueue) rq_remove_locked(cpu, t);`
  pub remove_if_queued-Off :
      (other : ℕ)
      → Off k (remove_if_queued k (cpu_by_id (cpu_or (k.tasks t).assigned_cpu other)) t) q t
  unfolding remove_if_queued
  remove_if_queued-Off other = elim (Bool-cases (on k t)) [
    | inl e ↦
        let (c, small, m, home) = home_of e in
        rw (e, home, cpu_by_id_small c small) (removed-Off c small m)
    | inr e ↦ rw e (already-Off e)
  ]
