-- ===== src/Sched/Switch/Dispatch.antt =====
-- src/sys/scheduler.c: the choice of the next task and its start, whoever ran before.
use edge_os.Prelude.{ℕ, ◌≡◌, ◌≢◌, refl, ◌∙◌, ap, true, false, List, ◌∷◌, ◌<◌, arith}
use edge_os.Prelude.Int.{pos}
use edge_os.Dll.{has, has-here, cell-ne-zero}
use edge_os.Task.{Kernel, Task, put, running, sched_max_cpus}
use edge_os.Sched.Queue.Links.{on}
use edge_os.Sched.Queue.Moves.{popped}
use edge_os.Sched.Ops.{scheduler_cpu_id}
use edge_os.Sched.Rep.{Queues, drop}
use edge_os.Sched.Inv.{Inv, Moved, Off-Moved, Moved-put, Moved-Inv, Rep-frame, Waiting-core}
use edge_os.Sched.Switch.{start_running, set_current, switch_to_next}
use edge_os.Sched.Switch.Pick.{popped-Off}

-- The CPU `c` runs the ordinary task `p`.
pub record Runs (k : Kernel) (c p : ℕ) : Type 0 where
  pub up : k.ready ≡ true
  pub here : k.local_cpu_id ≡ c
  pub small : c < sched_max_cpus
  pub current : (k.cpus c).current ≡ p
  pub state : (k.tasks p).state ≡ running
  pub home : (k.tasks p).assigned_cpu ≡ pos c
  pub busy : (k.tasks p).is_idle ≡ false

pub set_current-Inv :
    {k : Kernel} {q : Queues} (c p : ℕ) → Inv k q → p ≢ 0 → Inv (set_current k c p) q
unfolding set_current
set_current-Inv {k} {q} c p v p_ne = record {
  rep =
      Rep-frame _ q q v.rep (λ a. (refl, refl, refl)) (λ d. (ground arith, ground arith))
        λ d small. refl;
  waiting = λ d a small i. Waiting-core {k = k} _ d a refl (v.waiting d a small i);
  idle_set = λ d small. ground (arith, v.idle_set d small);
  idle_idle = λ d small. rw (idle_now d) (v.idle_idle d small);
  current_set = λ d small. ground (arith, v.current_set d small);
}
  where
    idle_now : (d : ℕ) → ((set_current k c p).cpus d).idle ≡ (k.cpus d).idle
    idle_now d = ground arith

-- what the writes to the chosen task amount to
abbrev started : Kernel → ℕ → Kernel
started k t = put k t (record (k.tasks t) {
  assigned_cpu = pos (scheduler_cpu_id k);
  state = running;
  need_resched = false;
})

switch_to_next-eq :
    (k : Kernel) (t c : ℕ)
    → t ≢ 0
    → (k.tasks t).is_idle ≡ false
    → switch_to_next t k c ≡ set_current (started k t) c t
unfolding switch_to_next start_running
switch_to_next-eq k t c t_ne busy = ground arith

started-Runs :
    (k : Kernel) (t c : ℕ)
    → k.ready ≡ true
    → k.local_cpu_id ≡ c
    → c < sched_max_cpus
    → (k.tasks t).is_idle ≡ false
    → Runs (set_current (started k t) c t) c t
unfolding set_current scheduler_cpu_id
started-Runs k t c up here small busy = record {
  up = up;
  here = here;
  small = small;
  current = ground arith;
  state = ground arith;
  home = ground arith;
  busy = ground arith;
}

module _ {k : Kernel} {q : Queues} (v : Inv k q) (c : ℕ) (small : c < sched_max_cpus)
    (up : k.ready ≡ true) (here : k.local_cpu_id ≡ c) (t : ℕ) (rest : List ℕ)
    (e : q c ≡ t ∷ rest) where
  waits : has t (q c) ≡ true
  waits = rw e (has-here t t rest refl)

  next_ne : t ≢ 0
  next_ne = cell-ne-zero _ _ 0 t (q c) (v.rep.on_cpu c small).dll.chain waits

  popped_busy : ((popped k c).tasks t).is_idle ≡ false
  popped_busy =
      ap (λ (u : Task). u.is_idle) ((popped-Off v c small t rest e).cores t)
      ∙ (v.waiting c t small waits).busy

  started-Moved : Moved k (started (popped k c) t) q t
  started-Moved = Moved-put _ (Off-Moved (popped-Off v c small t rest e)) refl refl refl refl

  off_after : on (set_current (started (popped k c) t) c t) t ≡ false
  unfolding set_current
  off_after = started-Moved.flag

  -- The first of the queue runs, and the others wait on.
  pub dispatch-cons :
      Inv (switch_to_next t (popped k c) c) (drop q t)
      × Runs (switch_to_next t (popped k c) c) c t
      × (on (switch_to_next t (popped k c) c) t ≡ false)
  dispatch-cons =
      let same = (popped-Off v c small t rest e).rest in
      rw (switch_to_next-eq (popped k c) t c next_ne popped_busy) (
        set_current-Inv c t (Moved-Inv v started-Moved) next_ne,
        started-Runs (popped k c) t c (ap (λ (z : Kernel). z.ready) same ∙ up)
            (ap (λ (z : Kernel). z.local_cpu_id) same ∙ here) small popped_busy,
        off_after,
      )
