-- ===== src/Sched/Rep/Pop.antt =====
-- src/sys/scheduler.c: `rq_pop_head_locked` takes the first task of a queue.
use edge_os.Prelude.{ℕ, ◌≡◌, refl, subst, List, [], ◌∷◌, ◌<◌, arith}
use edge_os.Dll.{has-here}
use edge_os.Task.{Kernel, sched_max_cpus}
use edge_os.Sched.Queue.{rq_pop_head_locked}
use edge_os.Sched.Queue.Moves.{
  popped, fst-rq_pop_head_locked, prev-rq_pop_head_locked, next-rq_pop_head_locked,
  on-rq_pop_head_locked, cpus-rq_pop_head_locked,
}
use edge_os.Sched.Rep.Defs.{Queues, OnCpu, Rep}
use edge_os.Sched.Rep.Remove.{drop, Removed, Removed-Rep}

module _ {k : Kernel} {q : Queues} (c : ℕ) (r : Rep k q) (small : c < sched_max_cpus) where
  pub rq_pop_head_locked-nil : q c ≡ [] → rq_pop_head_locked k c ≡ (0, k)
  unfolding rq_pop_head_locked
  rq_pop_head_locked-nil e =
      let head = subst (λ xs. OnCpu k c xs) e (r.on_cpu c small) in ground (arith, head.dll.head_eq)

  module _ (t : ℕ) (rest : List ℕ) (e : q c ≡ t ∷ rest) where
    first : OnCpu k c (t ∷ rest)
    first = subst (λ xs. OnCpu k c xs) e (r.on_cpu c small)

    popped-Removed : Removed k (popped k c) c t
    popped-Removed =
        let head = first.dll.head_eq in
        let t_ne = first.dll.chain.0 in
        let p = first.dll.chain.1 in
        record {
          prevs = λ a a_ne. prev-rq_pop_head_locked k c t head t_ne a a_ne p;
          nexts = λ a a_ne. next-rq_pop_head_locked k c t head t_ne a a_ne p;
          flags = on-rq_pop_head_locked k c t head t_ne;
          head = ground (arith, cpus-rq_pop_head_locked k c t head t_ne c);
          tail = ground (arith, cpus-rq_pop_head_locked k c t head t_ne c);
          others = λ d ne. ground (arith, cpus-rq_pop_head_locked k c t head t_ne d);
        }

    -- The pop returns the task that waited longest, and the others wait on in their order.
    pub rq_pop_head_locked-Rep : ((rq_pop_head_locked k c).0 ≡ t) × Rep (popped k c) (drop q t)
    rq_pop_head_locked-Rep = (
      fst-rq_pop_head_locked k c t first.dll.head_eq first.dll.chain.0,
      Removed-Rep c t r small (rw e (has-here t t rest refl)) popped-Removed,
    )
