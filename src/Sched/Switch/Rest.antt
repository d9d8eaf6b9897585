-- ===== src/Sched/Switch/Rest.antt =====
-- src/sys/scheduler.c: a call of `schedule_common` when the task that ran does not go back.
use edge_os.Prelude.{
  ℕ, ◌≡◌, refl, ◌∙◌, ap, Bool, true, false, List, [], ◌∷◌, ◌<◌, arith, some, ◌⊎◌, inl, inr,
}
use edge_os.Dll.{erase, has-here, erase-same}
use edge_os.Task.{Kernel, TaskState, blocked, zombie, unused, runnable, sched_max_cpus}
use edge_os.Sched.Queue.{pick_next_runnable_locked}
use edge_os.Sched.Queue.Moves.{popped}
use edge_os.Sched.Rep.{Queues, drop}
use edge_os.Sched.Inv.{Inv}
use edge_os.Sched.Switch.{
  current_or_idle, put_back, goes_back, switch_to_next, set_current, start_running, schedule_common,
  pick_fuel,
}
use edge_os.Sched.Switch.Pick.{pick-cons, pick-nil}
use edge_os.Sched.Switch.Dispatch.{dispatch-cons, set_current-Inv}
use edge_os.Sched.Switch.Turn.{Turn, cpu_local_eq, drop-elsewhere}

-- The states of a task that does not wait for the CPU again: it has blocked, has ended, or has left
-- its slot; or it is only runnable, at a call that is not from the timer.
abbrev pub IsResting : Bool → TaskState → Type 0
IsResting tick_mode st =
    (st ≡ blocked) ⊎ ((st ≡ zombie) ⊎ ((st ≡ unused) ⊎ ((st ≡ runnable) × (tick_mode ≡ false))))

-- CPU `c` makes the call, and the task that runs is idle, or rests.
pub record Rests (k : Kernel) (c : ℕ) (tick_mode : Bool) : Type 0 where
  pub up : k.ready ≡ true
  pub here : k.local_cpu_id ≡ c
  pub small : c < sched_max_cpus
  pub stays :
      ((k.tasks (k.cpus c).current).is_idle ≡ true)
      ⊎ IsResting tick_mode (k.tasks (k.cpus c).current).state

not_back :
    (tick_mode : Bool) (st : TaskState) → IsResting tick_mode st → goes_back tick_mode st ≡ false
not_back tick_mode st (inl b) = ap (goes_back tick_mode) b
not_back tick_mode st (inr (inl z)) = ap (goes_back tick_mode) z
not_back tick_mode st (inr (inr (inl u))) = ap (goes_back tick_mode) u
not_back tick_mode st (inr (inr (inr r))) = ap (goes_back tick_mode) r.0 ∙ r.1

module _ {k : Kernel} {q : Queues} (v : Inv k q) (c : ℕ) (tick_mode : Bool)
    (r : Rests k c tick_mode) where
  current_is : current_or_idle k c ≡ (k.cpus c).current
  current_is = let ne = v.current_set c r.small in ground arith

  put_back-rests : put_back tick_mode k c (k.cpus c).current ≡ k
  unfolding put_back
  put_back-rests = elim r.stays [
    | inl idle ↦ ground (arith, idle)
    | inr rests ↦
        let s = not_back tick_mode (k.tasks (k.cpus c).current).state rests in ground (arith, s)
  ]

  rests-eq :
      (y : ℕ) (k2 : Kernel)
      → pick_next_runnable_locked pick_fuel k c ≡ some (y, k2)
      → schedule_common tick_mode k ≡ some (switch_to_next y k2 c)
  unfolding schedule_common
  rests-eq y k2 pick =
      let ne = v.current_set c r.small in
      rw (cpu_local_eq v c r.up r.here r.small, schedule_common)
        (rw (current_is, schedule_common)
          (rw (put_back-rests, schedule_common) (rw (pick, schedule_common) (ground arith))))

  -- Where the task that ran is idle, has blocked, has ended or has left its slot, or is runnable
  -- and the call is not in the tick mode, the first task of the queue runs next, those behind it
  -- wait on in their order, and the queues of the other CPUs stay.
  pub rests-Turn :
      (y : ℕ) (ys : List ℕ) → q c ≡ y ∷ ys → Turn k q c y ys (schedule_common tick_mode k)
  rests-Turn y ys e =
      let d = dispatch-cons v c r.small r.up r.here y ys e in
      record {
        after = switch_to_next y (popped k c) c;
        queues = drop q y;
        returns = rests-eq y (popped k c) (pick-cons v c r.small y ys e 72);
        inv = d.0;
        runs = d.1;
        waits = ap (erase y) e ∙ erase-same y y ys refl;
        elsewhere =
            λ a small ne. drop-elsewhere v c y a r.small small ne (rw e (has-here y y ys refl));
      }

  idle_next : switch_to_next (k.cpus c).idle k c ≡ set_current k c (k.cpus c).idle
  unfolding switch_to_next start_running
  idle_next = let i = v.idle_idle c r.small in let ne = v.idle_set c r.small in ground arith

  idle_current : ((set_current k c (k.cpus c).idle).cpus c).current ≡ (k.cpus c).idle
  unfolding set_current
  idle_current = ground arith

  -- Where the task that ran is idle, has blocked, has ended or has left its slot, or is runnable
  -- and the call is not in the tick mode, and no task waits for the CPU, it goes to its idle task,
  -- and the queues stay.
  pub rests-idle :
      q c ≡ []
      → (k' : Kernel) × (schedule_common tick_mode k ≡ some k')
        × Inv k' q
        × ((k'.cpus c).current ≡ (k.cpus c).idle)
  rests-idle e = (
    set_current k c (k.cpus c).idle,
    rests-eq (k.cpus c).idle k (pick-nil v c r.small 72 e) ∙ ap some idle_next,
    set_current-Inv c (k.cpus c).idle v (v.idle_set c r.small),
    idle_current,
  )
