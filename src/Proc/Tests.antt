-- ===== src/Proc/Tests.antt =====
-- src/sys/process.c: a family of three processes, and runs on it.
use edge_os.Prelude.{
  false, ℕ, ◌+◌, ◌%◌, ◌≡◌, ◌≢◌, refl, sym, ◌∙◌, subst, true, List, [], ◌∷◌, some, arith, ◌==◌,
  if◌then◌else◌, ◌≤◌, ap,
}
use edge_os.Proc.Session.{process_setsid, process_getsid, process_getpgid}
use edge_os.Proc.Session.Leader.{process_setsid-leads}
use edge_os.Prelude.Int.{neg_one, ◌==ℤ◌, pos}
use edge_os.Dll.{has}
use edge_os.Task.{
  Kernel, Regions, Task, zero_task, zero_frame, runnable, running, zombie, proc_max_tasks, task_at,
}
use edge_os.Sched.Ops.{scheduler_current_task, scheduler_cpu_local, scheduler_cpu_id, cpu_by_id}
use edge_os.Proc.Table.{
  find_slot, task_find_by_pid, is_unused, task_alloc, holds_pid, user_as_max_tasks,
}
use edge_os.Proc.Table.Find.{First, table-First}
use edge_os.Proc.Tree.{
  process_adopt_orphans, task_child_link, task_child_unlink, link_first, hook_child, hook_first,
  hook_parent,
}
use edge_os.Proc.Tree.Kids.{Kids, without, with_first, task_child_unlink-Kids}
use edge_os.Proc.Tree.Link.{task_child_link-Kids}
use edge_os.Proc.Tree.Adopt.{Handed, process_adopt_orphans-Handed}
use edge_os.Proc.Cred.{process_current_task}
use edge_os.Proc.Cred.Confined.{Confined, creds, calls, calls-Confined, setuid, setreuid}
use edge_os.Proc.Exit.{process_kill_pid}
use edge_os.Proc.Exit.Ends.{AfterEnd, process_kill_pid-AfterEnd}
use edge_os.Proc.Wait.{WaitTurn, process_wait_pid, wait_matches}
use edge_os.Proc.Memory.{slot_of, fresh_space}
use edge_os.Proc.Start.{fork_task}
use edge_os.Proc.Wait.Turn.{Childless, TurnSpec, process_wait_pid-TurnSpec}
use edge_os.Proc.Start.Forked.{ForkedMemory, fork_task-ForkedMemory}

abbrev numbered : Regions
numbered = record {
  low = λ a. a;
  text = λ a. a + 1;
  stack = λ a. a + 2;
  heap = λ a. a + 3;
  heap_ext = λ a. a + 4;
  bigpie = λ a. a + 5;
}

-- the slots 1, 2 and 3 are the processes 1, 2 and 3; the second runs, as the user 7
abbrev slots : ℕ → Task
slots a =
    if a == 1
    then record zero_task { pid = pos 1; state = runnable }
    else if a == 2
    then record zero_task {
      pid = pos 2;
      state = running;
      space = fresh_space;
      cred = record { uid = 7; gid = 7; euid = 7; egid = 7; umask = 18 };
    }
    else if a == 3
    then record zero_task { pid = pos 3; state = zombie; exit_code = pos 5 }
    else zero_task

abbrev strangers : Kernel
strangers = record {
  tasks = slots;
  cpus = λ c. record { current = 2; idle = 65; rq_head = 0; rq_tail = 0; logical_id = 0 };
  local_cpu_id = 0;
  ready = true;
  total_ticks = 0;
  idle_ticks = 0;
  next_pid = 4;
  regions = λ i. numbered;
  fs_base_msr = 0;
  released = [];
}

abbrev no_kids : ℕ → List ℕ
no_kids p = []

strangers-Kids : Kids strangers no_kids
strangers-Kids = record {
  lists = λ p ne. record { chain = tt; head_eq = ground arith; distinct = tt };
  parent_is = λ p a ne h. absurd (ground arith);
  listed = λ a a_ne ne. absurd (ne (ground arith));
  alone = λ a a_ne z. (ground arith, ground arith);
}

task_child_link-Kids_example :
    Kids (task_child_link strangers 1 2) (with_first (without no_kids 2) 1 2)
task_child_link-Kids_example =
    task_child_link-Kids strangers no_kids 1 2 (omega arith) (omega arith) strangers-Kids

abbrev kids : ℕ → List ℕ
kids = with_first (without (with_first (without no_kids 2) 1 2) 3) 2 3

-- the third is a child of the second, and the second of the first
abbrev family : Kernel
family = task_child_link (task_child_link strangers 1 2) 2 3

family-Kids : Kids family kids
family-Kids =
    task_child_link-Kids (task_child_link strangers 1 2) (with_first (without no_kids 2) 1 2) 2 3
      (omega arith) (omega arith) task_child_link-Kids_example

task_child_unlink-Kids_example : Kids (task_child_unlink family 2) (without kids 2)
task_child_unlink-Kids_example = task_child_unlink-Kids family kids 2 (omega arith) family-Kids

second : task_find_by_pid family (pos 2) ≡ 2
unfolding task_find_by_pid find_slot task_child_link link_first hook_parent hook_first hook_child
    task_child_unlink
second = refl

first : task_find_by_pid family (pos 1) ≡ 1
unfolding task_find_by_pid find_slot task_child_link link_first hook_parent hook_first hook_child
    task_child_unlink
first = refl

current : process_current_task family ≡ 2
unfolding process_current_task scheduler_current_task scheduler_cpu_local scheduler_cpu_id cpu_by_id
    task_child_link link_first hook_parent hook_first hook_child task_child_unlink
current = refl

away : (p q : ℕ) → p ≡ q → q ≢ 0 → p ≢ 0
away p q e ne z = ne (sym e ∙ z)

second-bound : (a : ℕ) → has a (kids (task_find_by_pid family (pos 2))) ≡ true → a ≤ proc_max_tasks
second-bound =
    subst (λ z. (a : ℕ) → has a (kids z) ≡ true → a ≤ proc_max_tasks) (sym second)
      (λ a h. ground arith)

current-bound : (a : ℕ) → has a (kids (process_current_task family)) ≡ true → a ≤ proc_max_tasks
current-bound =
    subst (λ z. (a : ℕ) → has a (kids z) ≡ true → a ≤ proc_max_tasks) (sym current)
      (λ a h. ground arith)

apart : task_find_by_pid family (pos 1) ≢ task_find_by_pid family (pos 2)
apart e = let same : (◌≡◌ {A = ℕ} 1 2) = sym first ∙ e ∙ second in omega arith

process_adopt_orphans-Handed_example :
    Handed
      (task_find_by_pid family (pos 2))
      (task_find_by_pid family (pos 1))
      family
      kids
      (kids (task_find_by_pid family (pos 2)))
      0
      (process_adopt_orphans family (pos 2) (pos 1))
process_adopt_orphans-Handed_example =
    process_adopt_orphans-Handed family kids (pos 2) (pos 1) family-Kids second-bound
      (away _ 2 second (omega arith)) (away _ 1 first (omega arith)) apart

second-parent :
    (family.tasks (task_find_by_pid family (pos 2))).parent ≢ task_find_by_pid family (pos 2)
second-parent =
    subst (λ z. (family.tasks z).parent ≢ z) (sym second)
      (λ e.
        let p = family-Kids.parent_is 1 2 (omega arith) (ground arith) in
        let same : (◌≡◌ {A = ℕ} 1 2) = sym p ∙ e in omega arith)

process_kill_pid-AfterEnd_example :
    (k' : Kernel) × (process_kill_pid family (pos 2) (pos 9) ≡ some (pos 0, k'))
    × AfterEnd family k' kids (task_find_by_pid family (pos 2)) (task_find_by_pid family (pos 1))
process_kill_pid-AfterEnd_example =
    process_kill_pid-AfterEnd family kids (pos 2) (pos 9) family-Kids
      (away _ 2 second (omega arith)) (away _ 1 first (omega arith)) refl second-parent second-bound

current-Childless : Childless family kids (process_current_task family)
current-Childless =
    subst (Childless family kids) (sym current)
      λ a h over. let third : a ≡ 3 = ground arith in ap kids third

process_wait_pid-TurnSpec_example :
    (r : WaitTurn) × (process_wait_pid family (pos 3) 0 ≡ some r)
    × TurnSpec family kids
        (process_current_task family)
        (wait_matches (pos 3) (family.tasks (process_current_task family)).pgid)
        (0 % 2 == 1)
        r
process_wait_pid-TurnSpec_example =
    process_wait_pid-TurnSpec family kids (pos 3) 0 family-Kids (away _ 2 current (omega arith))
      current-Childless current-bound

table-First_example :
    First (holds_pid strangers (pos 3)) proc_max_tasks 0 (task_find_by_pid strangers (pos 3))
    × First
        (λ i. is_unused (strangers.tasks (task_at i)).state)
        user_as_max_tasks
        0
        (task_alloc strangers)
table-First_example = table-First strangers (pos 3)

fork_task-ForkedMemory_example :
    ForkedMemory
      (family.tasks 2).space.user_heap_limit
      (family.regions (slot_of 2))
      ((fork_task family 2 4 zero_frame).regions (slot_of 4))
    × ((i : ℕ) → i ≢ slot_of 4 → (fork_task family 2 4 zero_frame).regions i ≡ family.regions i)
fork_task-ForkedMemory_example =
    fork_task-ForkedMemory family 2 4 zero_frame (omega arith) (omega arith) (omega arith)

runs : process_current_task strangers ≡ 2
unfolding process_current_task scheduler_current_task scheduler_cpu_local scheduler_cpu_id cpu_by_id
runs = refl

user : ((creds strangers).uid ≢ 0) × ((creds strangers).euid ≢ 0)
user =
    subst (λ z. ((slots z).cred.uid ≢ 0) × ((slots z).cred.euid ≢ 0)) (sym runs)
      (omega arith, omega arith)

calls-Confined_example :
    Confined (creds strangers) (creds (calls strangers (setuid 0 ∷ setreuid 0 7 ∷ [])))
    × ((creds (calls strangers (setuid 0 ∷ setreuid 0 7 ∷ []))).uid ≢ 0)
    × ((creds (calls strangers (setuid 0 ∷ setreuid 0 7 ∷ []))).euid ≢ 0)
calls-Confined_example = calls-Confined strangers (setuid 0 ∷ setreuid 0 7 ∷ []) user.0 user.1

finds_itself :
    task_find_by_pid strangers (strangers.tasks (process_current_task strangers)).pid
    ≡ process_current_task strangers
unfolding process_current_task scheduler_current_task scheduler_cpu_local scheduler_cpu_id cpu_by_id
    task_find_by_pid find_slot
finds_itself = refl

no_leader :
    ((strangers.tasks (process_current_task strangers)).pgid
      ==ℤ (strangers.tasks (process_current_task strangers)).pid)
    ≡ false
unfolding process_current_task scheduler_current_task scheduler_cpu_local scheduler_cpu_id cpu_by_id
no_leader = refl

process_setsid-leads_example :
    ((process_setsid strangers).0 ≡ (strangers.tasks (process_current_task strangers)).pid)
    × (process_getsid (process_setsid strangers).1 (pos 0)
        ≡ (strangers.tasks (process_current_task strangers)).pid)
    × (process_getpgid (process_setsid strangers).1 (pos 0)
        ≡ (strangers.tasks (process_current_task strangers)).pid)
    × (process_setsid (process_setsid strangers).1 ≡ (neg_one, (process_setsid strangers).1))
process_setsid-leads_example =
    process_setsid-leads strangers (away _ 2 runs (omega arith)) finds_itself no_leader
