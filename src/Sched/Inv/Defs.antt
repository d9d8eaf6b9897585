-- ===== src/Sched/Inv/Defs.antt =====
-- src/sys/scheduler.c: the invariant, and when a change of the kernel leaves it alone.
use edge_os.Prelude.{ℕ, ◌≡◌, ◌≢◌, ◌∙◌, ap, sym, true, false, ◌<◌}
use edge_os.Prelude.Int.{pos}
use edge_os.Dll.{has, Chain-frame}
use edge_os.Task.{Kernel, Task, runnable, sched_max_cpus}
use edge_os.Sched.Queue.Links.{pv, nx, on, core}
use edge_os.Sched.Rep.{Queues, Rep}

-- A task on the queue of `c` is runnable, assigned to `c`, and no idle task.
pub record Waiting (k : Kernel) (c a : ℕ) : Type 0 where
  pub home : (k.tasks a).assigned_cpu ≡ pos c
  pub ready : (k.tasks a).state ≡ runnable
  pub busy : (k.tasks a).is_idle ≡ false

pub record Inv (k : Kernel) (q : Queues) : Type 0 where
  pub rep : Rep k q
  pub waiting : (c a : ℕ) → c < sched_max_cpus → has a (q c) ≡ true → Waiting k c a
  pub idle_set : (c : ℕ) → c < sched_max_cpus → (k.cpus c).idle ≢ 0
  pub idle_idle : (c : ℕ) → c < sched_max_cpus → (k.tasks (k.cpus c).idle).is_idle ≡ true
  pub current_set : (c : ℕ) → c < sched_max_cpus → (k.cpus c).current ≢ 0

-- A change that spares links, flags and the ends of the queues.
pub Rep-frame :
    {k : Kernel} (k' : Kernel) (q q' : Queues)
    → Rep k q
    → ((a : ℕ) → (pv k' a ≡ pv k a) × (nx k' a ≡ nx k a) × (on k' a ≡ on k a))
    → ((c : ℕ)
        → ((k'.cpus c).rq_head ≡ (k.cpus c).rq_head) × ((k'.cpus c).rq_tail ≡ (k.cpus c).rq_tail))
    → ((c : ℕ) → c < sched_max_cpus → q' c ≡ q c)
    → Rep k' q'
Rep-frame {k} k' q q' r links ends same = record {
  on_cpu = λ c small. rw (same c small) (
      let o = r.on_cpu c small in
      record {
        dll = record {
          chain =
              Chain-frame (pv k) (nx k) (pv k') (nx k') 0 (q c) o.dll.chain
                λ a i. ((links a).0, (links a).1);
          head_eq = (ends c).0 ∙ o.dll.head_eq;
          distinct = o.dll.distinct;
        };
        tail = (ends c).1 ∙ o.tail;
      });
  flagged = λ c a small i. (links a).2 ∙ r.flagged c a small (back c a small i);
  listed = λ a a_ne i.
      let (c, small, m) = r.listed a a_ne (sym (links a).2 ∙ i) in (c, small, rw (same c small) m);
  apart = λ c d a cs ds i j. r.apart c d a cs ds (back c a cs i) (back d a ds j);
}
  where
    back : (c a : ℕ) → c < sched_max_cpus → has a (q' c) ≡ true → has a (q c) ≡ true
    back c a small i = rw (same c small) at i

-- A task is on the queue of `c` as before if its core is.
pub Waiting-core :
    {k : Kernel} (k' : Kernel) (c a : ℕ)
    → core (k'.tasks a) ≡ core (k.tasks a)
    → Waiting k c a
    → Waiting k' c a
Waiting-core k' c a e w = record {
  home = ap (λ (u : Task). u.assigned_cpu) e ∙ w.home;
  ready = ap (λ (u : Task). u.state) e ∙ w.ready;
  busy = ap (λ (u : Task). u.is_idle) e ∙ w.busy;
}
