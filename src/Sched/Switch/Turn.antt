-- ===== src/Sched/Switch/Turn.antt =====
-- src/sys/scheduler.c: one call of `schedule_common`, from each state of the task that runs.
use edge_os.Prelude.{
  ℕ, ◌≡◌, ◌≢◌, refl, ◌∙◌, ap, Bool, true, false, List, [], ◌∷◌, ◌++◌, ◌<◌, arith, Option, some,
  Bool-cases, inl, inr,
}
use edge_os.Dll.{has, erase, erase_absent, has-here, erase-same}
use edge_os.Task.{Kernel, runnable, running, sched_max_cpus}
use edge_os.Sched.Queue.{rq_link_tail, rq_push_tail_locked, pick_next_runnable_locked}
use edge_os.Sched.Queue.Links.{on, SameRest, SameRest-trans}
use edge_os.Sched.Queue.Moves.{popped, rq_push_tail_locked-eq, rest-rq_link_tail}
use edge_os.Sched.Ops.{scheduler_cpu_local, scheduler_cpu_id, cpu_by_id, set_state}
use edge_os.Sched.Rep.{Queues, drop, enq, enq_self, enq-other}
use edge_os.Sched.Inv.{Inv, Moved, Off-Moved, already-Off, absent, Moved-put, pushed-Inv}
use edge_os.Sched.Switch.{current_or_idle, put_back, switch_to_next, schedule_common, pick_fuel}
use edge_os.Sched.Switch.Pick.{pick-cons}
use edge_os.Sched.Switch.Dispatch.{Runs, dispatch-cons}

-- What a call leaves: the new state, the queues, the task that runs and those that wait for `c`.
pub record Turn (k : Kernel) (q : Queues) (c p : ℕ) (xs : List ℕ) (out : Option Kernel)
    : Type 0 where
  pub after : Kernel
  pub queues : Queues
  pub returns : out ≡ some after
  pub inv : Inv after queues
  pub runs : Runs after c p
  pub waits : queues c ≡ xs
  pub elsewhere : (d : ℕ) → d < sched_max_cpus → d ≢ c → queues d ≡ q d

module _ {k : Kernel} {q : Queues} (v : Inv k q) (c : ℕ) where
  pub cpu_local_eq :
      k.ready ≡ true → k.local_cpu_id ≡ c → c < sched_max_cpus → scheduler_cpu_local k ≡ some c
  unfolding scheduler_cpu_local scheduler_cpu_id cpu_by_id
  cpu_local_eq up here small = ground arith

  -- A running task is on no queue.
  running-off : (p : ℕ) → p ≢ 0 → (k.tasks p).state ≡ running → on k p ≡ false
  running-off p p_ne st = elim (Bool-cases (on k p)) [
    | inr e ↦ e
    | inl e ↦
        let (d, small, m) = v.rep.listed p p_ne e in let st' = (v.waiting d p small m).ready in cc
  ]

-- A task that waits for one CPU is on no other queue.
pub drop-elsewhere :
    {k : Kernel} {q : Queues} (v : Inv k q) (c y d : ℕ)
    → c < sched_max_cpus
    → d < sched_max_cpus
    → d ≢ c
    → has y (q c) ≡ true
    → drop q y d ≡ q d
drop-elsewhere {q = q} v c y d small small' ne m = elim (Bool-cases (has y (q d))) [
  | inl e ↦ absurd (ne (v.rep.apart d c y small' small e m))
  | inr e ↦ erase_absent y (q d) e
]

module _ {k : Kernel} {q : Queues} (v : Inv k q) (c p : ℕ) (r : Runs k c p) where
  p_ne : p ≢ 0
  p_ne e = v.current_set c r.small (r.current ∙ e)

  current_eq : current_or_idle k c ≡ p
  current_eq = let ne = p_ne in let e = r.current in ground arith

  put_back-eq :
      (tick_mode : Bool)
      → put_back tick_mode k c p ≡ rq_push_tail_locked (set_state k p runnable) c p
  unfolding put_back
  put_back-eq tick_mode = rw (r.busy, r.state)

  requeued-Moved : Moved k (set_state k p runnable) q p
  unfolding set_state
  requeued-Moved =
      Moved-put _ (Off-Moved (already-Off v p p_ne (running-off v c p p_ne r.state))) refl refl refl
        refl

  requeued-Inv : Inv (rq_push_tail_locked (set_state k p runnable) c p) (enq (drop q p) c p)
  unfolding set_state
  requeued-Inv =
      pushed-Inv v requeued-Moved c r.small p_ne (ground (arith, r.home)) (ground arith)
        (ground (arith, r.busy))

  rest-set_state : SameRest k (set_state k p runnable)
  unfolding set_state
  rest-set_state = refl

  requeued-rest : SameRest k (rq_push_tail_locked (set_state k p runnable) c p)
  requeued-rest =
      rw (rq_push_tail_locked-eq (set_state k p runnable) c p p_ne requeued-Moved.flag) (
        SameRest-trans (rq_link_tail (set_state k p runnable) c p) rest-set_state
          (rest-rq_link_tail (set_state k p runnable) c p))

  -- what is left once the task that ran has been dealt with
  schedule_common-eq :
      (tick_mode : Bool) (k1 k2 : Kernel) (y : ℕ)
      → put_back tick_mode k c p ≡ k1
      → pick_next_runnable_locked pick_fuel k1 c ≡ some (y, k2)
      → schedule_common tick_mode k ≡ some (switch_to_next y k2 c)
  unfolding schedule_common
  schedule_common-eq tick_mode k1 k2 y back pick =
      let ne = p_ne in
      rw (cpu_local_eq v c r.up r.here r.small, schedule_common)
        (rw (current_eq, schedule_common)
          (rw (back, schedule_common) (rw (pick, schedule_common) (ground arith))))

  requeued-queue : (xs : List ℕ) → q c ≡ xs → enq (drop q p) c p c ≡ xs ++ (p ∷ [])
  requeued-queue xs e =
      enq_self (drop q p) c p
      ∙ ap (λ z. z ++ (p ∷ []))
          (erase_absent p (q c) (absent v p p_ne c r.small (running-off v c p p_ne r.state)) ∙ e)

  requeued-elsewhere : (d : ℕ) → d < sched_max_cpus → d ≢ c → enq (drop q p) c p d ≡ q d
  requeued-elsewhere d small ne =
      enq-other (drop q p) c p d ne
      ∙ erase_absent p (q d) (absent v p p_ne d small (running-off v c p p_ne r.state))

  -- The running task goes to the end of the queue, and the first of the queue runs: the call
  -- of `schedule_common` returns, in the tick mode and outside it alike.
  pub running-Turn :
      (tick_mode : Bool) (xs : List ℕ) (y : ℕ) (ys : List ℕ)
      → q c ≡ xs
      → xs ++ (p ∷ []) ≡ y ∷ ys
      → Turn k q c y ys (schedule_common tick_mode k)
  running-Turn tick_mode xs y ys e e' =
      let q1 = enq (drop q p) c p in
      let first = requeued-queue xs e ∙ e' in
      let v1 = requeued-Inv in
      let up = ap (λ (z : Kernel). z.ready) requeued-rest ∙ r.up in
      let here = ap (λ (z : Kernel). z.local_cpu_id) requeued-rest ∙ r.here in
      let d = dispatch-cons v1 c r.small up here y ys first in
      record {
        after = switch_to_next y (popped (rq_push_tail_locked (set_state k p runnable) c p) c) c;
        queues = drop q1 y;
        returns =
            schedule_common-eq tick_mode _ _ y (put_back-eq tick_mode)
              (pick-cons v1 c r.small y ys first 72);
        inv = d.0;
        runs = d.1;
        waits = ap (erase y) first ∙ erase-same y y ys refl;
        elsewhere = λ a small ne.
            drop-elsewhere v1 c y a r.small small ne (rw first (has-here y y ys refl))
            ∙ requeued-elsewhere a small ne;
      }
