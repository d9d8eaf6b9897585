-- ===== src/Sched/Switch/Pick.antt =====
-- src/sys/scheduler.c: which task `pick_next_runnable_locked` returns.
use edge_os.Prelude.{ℕ, suc, ◌≡◌, ◌≢◌, refl, ◌∙◌, ap, subst, List, [], ◌∷◌, ◌<◌, arith, some}
use edge_os.Dll.{has-here}
use edge_os.Task.{Kernel, Task, runnable, sched_max_cpus}
use edge_os.Sched.Queue.{pick_next_runnable_locked}
use edge_os.Sched.Queue.Moves.{
  popped, on-rq_pop_head_locked, core-rq_pop_head_locked, cpus-rq_pop_head_locked,
  rest-rq_pop_head_locked,
}
use edge_os.Sched.Rep.{Queues, OnCpu, rq_pop_head_locked-Rep, rq_pop_head_locked-nil}
use edge_os.Sched.Inv.{Inv, Off}

module _ {k : Kernel} {q : Queues} (v : Inv k q) (c : ℕ) (small : c < sched_max_cpus) where
  -- An empty queue leaves the idle task.
  pub pick-nil :
      (fuel : ℕ) → q c ≡ [] → pick_next_runnable_locked (suc fuel) k c ≡ some ((k.cpus c).idle, k)
  unfolding pick_next_runnable_locked
  pick-nil fuel e = rw (rq_pop_head_locked-nil c v.rep small e)

  module _ (t : ℕ) (rest : List ℕ) (e : q c ≡ t ∷ rest) where
    head_eq : (k.cpus c).rq_head ≡ t
    head_eq = (subst (λ xs. OnCpu k c xs) e (v.rep.on_cpu c small)).dll.head_eq

    t_ne : t ≢ 0
    t_ne = (subst (λ xs. OnCpu k c xs) e (v.rep.on_cpu c small)).dll.chain.0

    pub popped-Off : Off k (popped k c) q t
    popped-Off = record {
      rep = (rq_pop_head_locked-Rep c v.rep small t rest e).1;
      flag = ground (arith, on-rq_pop_head_locked k c t head_eq t_ne t);
      cores = core-rq_pop_head_locked k c t head_eq t_ne;
      currents = λ d. ground (arith, cpus-rq_pop_head_locked k c t head_eq t_ne d);
      idles = λ d. ground (arith, cpus-rq_pop_head_locked k c t head_eq t_ne d);
      rest = rest-rq_pop_head_locked k c t head_eq t_ne;
    }

    -- Otherwise the first of the queue is taken: the loop ends in its first round.
    pub pick-cons : (fuel : ℕ) → pick_next_runnable_locked (suc fuel) k c ≡ some (t, popped k c)
    unfolding pick_next_runnable_locked
    pick-cons fuel =
        let fst = (rq_pop_head_locked-Rep c v.rep small t rest e).0 in
        let w = v.waiting c t small (rw e (has-here t t rest refl)) in
        let st : ((popped k c).tasks t).state ≡ runnable =
          ap (λ (u : Task). u.state) (core-rq_pop_head_locked k c t head_eq t_ne t) ∙ w.ready in
        let ne : t ≢ 0 = t_ne in ground arith
