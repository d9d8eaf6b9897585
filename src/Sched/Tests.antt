-- ===== src/Sched/Tests.antt =====
-- src/sys/scheduler.c: runs of the scheduler from its initialisation on.
use edge_os.Prelude.{◌≡◌, refl, true, false, [], ◌∷◌, arith, some, inl, inr}
use edge_os.Prelude.Int.{neg_one}
use edge_os.Task.{Kernel, Regions, zero_task, runnable, running, blocked, zombie, unused}
use edge_os.Sched.Ops.{
  scheduler_init, scheduler_set_boot_current, scheduler_task_make_runnable, cpu_by_id,
  scheduler_task_set_blocked, scheduler_task_set_zombie, scheduler_task_set_running,
  scheduler_task_set_unused, take_off, leave_queue, home_id, init_cpus, init_cpu,
  scheduler_cpu_local, scheduler_cpu_id, remove_if_queued, assign, enqueue_on, leave_other_cpu,
  set_assigned_cpu, set_state,
}
use edge_os.Sched.Queue.{rq_push_tail_locked, rq_link_tail}
use edge_os.Dll.{has}
use edge_os.Sched.Rep.{Queues, drop, enq}
use edge_os.Sched.Inv.{Inv, make_runnable-Inv, set_state-Inv, set_unused-Inv}
use edge_os.Sched.Boot.{scheduler_init-Inv, set_boot_current-Runs}
use edge_os.Sched.Switch.{schedule_common}
use edge_os.Sched.Switch.Dispatch.{Runs}
use edge_os.Sched.Switch.Turn.{Turn, running-Turn}
use edge_os.Sched.Switch.Rest.{Rests, rests-Turn, rests-idle}
use edge_os.Sched.Switch.RoundRobin.{Series, schedules, schedules-Series}

abbrev no_regions : Regions
no_regions = record {
  low = λ a. 0;
  text = λ a. 0;
  stack = λ a. 0;
  heap = λ a. 0;
  heap_ext = λ a. 0;
  bigpie = λ a. 0;
}

abbrev cold : Kernel
cold = record {
  tasks = λ a. zero_task;
  cpus = λ c. record { current = 0; idle = 0; rq_head = 0; rq_tail = 0; logical_id = 0 };
  local_cpu_id = 0;
  ready = false;
  total_ticks = 0;
  idle_ticks = 0;
  next_pid = 1;
  regions = λ i. no_regions;
  fs_base_msr = 0;
  released = [];
}

abbrev nobody : Queues
nobody c = []

scheduler_init-Inv_example : Inv (scheduler_init cold) nobody × ((scheduler_init cold).ready ≡ true)
scheduler_init-Inv_example = scheduler_init-Inv cold refl (λ a. refl)

abbrev booted : Kernel
booted = scheduler_init cold

booted-Inv : Inv booted nobody
booted-Inv = (scheduler_init-Inv cold refl (λ a. refl)).0

-- the task of slot 0 runs, as after `process_init`
abbrev started : Kernel
started = scheduler_set_boot_current booted 1

started-Inv : Inv started (drop nobody 1)
unfolding scheduler_init init_cpus init_cpu
started-Inv =
    (set_boot_current-Runs booted-Inv 0 1 refl refl (omega arith) (λ e. cc) refl (λ e. cc)).0

-- the task of slot 1 becomes runnable on CPU 0
make_runnable-Inv_example :
    Inv (scheduler_task_make_runnable started 2 0) (enq (drop (drop nobody 1) 2) (cpu_by_id 0) 2)
    × (((scheduler_task_make_runnable started 2 0).tasks 2).state ≡ runnable)
unfolding scheduler_set_boot_current scheduler_init init_cpus init_cpu scheduler_cpu_local cpu_by_id
    scheduler_cpu_id remove_if_queued assign
make_runnable-Inv_example = make_runnable-Inv started-Inv 2 (λ e. cc) refl 0

abbrev shared : Kernel
shared = scheduler_task_make_runnable started 2 0

abbrev shared_queues : Queues
shared_queues = enq (drop (drop nobody 1) 2) (cpu_by_id 0) 2

shared-Inv : Inv shared shared_queues
shared-Inv = make_runnable-Inv_example.0

shared-Runs : Runs shared 0 1
unfolding scheduler_set_boot_current scheduler_init init_cpus init_cpu scheduler_cpu_local cpu_by_id
    scheduler_cpu_id remove_if_queued assign scheduler_task_make_runnable enqueue_on leave_other_cpu
    set_assigned_cpu set_state rq_push_tail_locked rq_link_tail
shared-Runs = record {
  up = refl;
  here = refl;
  small = omega arith;
  current = refl;
  state = refl;
  home = refl;
  busy = refl;
}

shared_busy : (shared.tasks 2).is_idle ≡ false
unfolding scheduler_set_boot_current scheduler_init init_cpus init_cpu scheduler_cpu_local cpu_by_id
    scheduler_cpu_id remove_if_queued assign scheduler_task_make_runnable enqueue_on leave_other_cpu
    set_assigned_cpu set_state rq_push_tail_locked rq_link_tail
shared_busy = refl

shared_queue : shared_queues 0 ≡ 2 ∷ []
unfolding cpu_by_id
shared_queue = refl

in_queue : has 2 (shared_queues 0) ≡ true
unfolding cpu_by_id
in_queue = refl

-- the task of slot 1 is taken off the queue on which it waits
set_boot_current-Runs_example :
    Inv (scheduler_set_boot_current shared 2) (drop shared_queues 2)
    × Runs (scheduler_set_boot_current shared 2) 0 2
set_boot_current-Runs_example =
    set_boot_current-Runs shared-Inv 0 2 shared-Runs.up shared-Runs.here (omega arith) (λ e. cc)
      shared_busy (λ e. in_queue)

-- a yield passes the CPU from slot 0 to slot 1
running-Turn_example : Turn shared shared_queues 0 2 (1 ∷ []) (schedule_common false shared)
running-Turn_example =
    running-Turn shared-Inv 0 1 shared-Runs false (2 ∷ []) 2 (1 ∷ []) shared_queue refl

schedules-Series_example : Series 0 2 (1 ∷ []) (schedules (false ∷ []) shared)
schedules-Series_example =
    schedules-Series false [] shared-Inv 0 1 shared-Runs [] 2 [] refl shared_queue

set_state-Inv_example :
    (Inv (scheduler_task_set_blocked shared 2) (drop shared_queues 2)
      × (((scheduler_task_set_blocked shared 2).tasks 2).state ≡ blocked))
    × (Inv (scheduler_task_set_zombie shared 2) (drop shared_queues 2)
        × (((scheduler_task_set_zombie shared 2).tasks 2).state ≡ zombie))
    × (Inv (scheduler_task_set_running shared 2) (drop shared_queues 2)
        × (((scheduler_task_set_running shared 2).tasks 2).state ≡ running))
set_state-Inv_example = set_state-Inv shared-Inv 2 (λ e. cc) shared_busy

set_unused-Inv_example :
    Inv (scheduler_task_set_unused shared 2) (drop shared_queues 2)
    × (((scheduler_task_set_unused shared 2).tasks 2).state ≡ unused)
    × (((scheduler_task_set_unused shared 2).tasks 2).assigned_cpu ≡ neg_one)
set_unused-Inv_example = set_unused-Inv shared-Inv 2 (λ e. cc) shared_busy

booted-Rests : Rests booted 0 false
unfolding scheduler_init init_cpus init_cpu
booted-Rests = record { up = refl; here = refl; small = omega arith; stays = inl refl }

rests-idle_example :
    (k' : Kernel) × (schedule_common false booted ≡ some k')
    × Inv k' nobody
    × ((k'.cpus 0).current ≡ (booted.cpus 0).idle)
rests-idle_example = rests-idle booted-Inv 0 false booted-Rests refl

-- the task of slot 0 blocks, and the one of slot 1 waits
abbrev sleeping : Kernel
sleeping = scheduler_task_set_blocked shared 1

first_busy : (shared.tasks 1).is_idle ≡ false
unfolding scheduler_set_boot_current scheduler_init init_cpus init_cpu scheduler_cpu_local cpu_by_id
    scheduler_cpu_id remove_if_queued assign scheduler_task_make_runnable enqueue_on leave_other_cpu
    set_assigned_cpu set_state rq_push_tail_locked rq_link_tail
first_busy = refl

sleeping-Inv : Inv sleeping (drop shared_queues 1)
sleeping-Inv = (set_state-Inv shared-Inv 1 (λ e. cc) first_busy).0.0

sleeping-Rests : Rests sleeping 0 true
unfolding scheduler_set_boot_current scheduler_init init_cpus init_cpu scheduler_cpu_local cpu_by_id
    scheduler_cpu_id remove_if_queued assign scheduler_task_make_runnable enqueue_on leave_other_cpu
    set_assigned_cpu set_state rq_push_tail_locked rq_link_tail scheduler_task_set_blocked take_off
    leave_queue home_id
sleeping-Rests = record { up = refl; here = refl; small = omega arith; stays = inr (inl refl) }

sleeping_queue : drop shared_queues 1 0 ≡ 2 ∷ []
unfolding cpu_by_id
sleeping_queue = refl

rests-Turn_example : Turn sleeping (drop shared_queues 1) 0 2 [] (schedule_common true sleeping)
rests-Turn_example = rests-Turn sleeping-Inv 0 true sleeping-Rests 2 [] sleeping_queue
