-- ===== src/Proc/Session/Leader.antt =====
-- src/sys/process.c: the leader that `process_setsid` makes.
use edge_os.Prelude.{
  ℕ, Bool, true, false, ◌≡◌, refl, sym, ap, ◌∙◌, ◌≢◌, arith, ◌==◌, if◌then◌else◌, ◌||◌, ne_test,
}
use edge_os.Prelude.Int.{ℤ, pos, neg_one, ◌==ℤ◌, ==ℤ_refl}
use edge_os.Prelude.Maps.{upd, upd_self}
use edge_os.Task.{Kernel, Ptr, Task, put}
use edge_os.Sched.Ops.{scheduler_current_task, scheduler_cpu_local, scheduler_cpu_id}
use edge_os.Proc.Table.{task_find_by_pid}
use edge_os.Proc.Table.Find.{task_find_by_pid-same}
use edge_os.Proc.Cred.{process_current_task}
use edge_os.Proc.Session.{ctty_none, process_getpgid, process_getsid, process_setsid}

current-put :
    (k : Kernel) (t : Ptr) (u : Task) → process_current_task (put k t u) ≡ process_current_task k
unfolding process_current_task scheduler_current_task scheduler_cpu_local scheduler_cpu_id
current-put k t u = refl

no_null : (a b : ℕ) (x y : ℤ) → a ≢ 0 → b ≢ 0 → (if (a == 0) || (b == 0) then x else y) ≡ y
no_null a b x y p q = ground arith

is_leader : {A : Type 0} {b : Bool} (x y : A) → b ≡ true → (if b then x else y) ≡ x
is_leader x y e = rw e refl

module _ (k : Kernel) (cur_ne : process_current_task k ≢ 0)
    (own : task_find_by_pid k (k.tasks (process_current_task k)).pid ≡ process_current_task k)
    (member : ((k.tasks (process_current_task k)).pgid ==ℤ (k.tasks (process_current_task k)).pid)
      ≡ false) where
  cur : Ptr
  cur = process_current_task k

  leader : Task
  leader = record (k.tasks cur) {
    sid = (k.tasks cur).pid;
    pgid = (k.tasks cur).pid;
    ctty_kind = ctty_none;
    ctty_id = neg_one;
  }

  led : Kernel
  led = put k cur leader

  two_tests :
      {A : Type 0} (p : ℕ) (b : Bool) (x y z : A)
      → p ≢ 0
      → b ≡ false
      → (if p == 0 then x else if b then y else z) ≡ z
  two_tests p b x y z ne e = ground arith

  setsid-eq : process_setsid k ≡ ((k.tasks cur).pid, led)
  unfolding process_setsid led leader cur
  setsid-eq = two_tests (process_current_task k) _ _ _ _ cur_ne member

  led-current : process_current_task led ≡ cur
  unfolding led cur
  led-current = current-put k (process_current_task k) leader

  led-task : led.tasks (process_current_task led) ≡ leader
  unfolding led
  led-task = ap (upd k.tasks cur leader) led-current ∙ upd_self k.tasks cur leader

  led-pid : (a : ℕ) → (led.tasks a).pid ≡ (k.tasks a).pid
  unfolding led leader
  led-pid a = ground arith

  led-state : (a : ℕ) → (led.tasks a).state ≡ (k.tasks a).state
  unfolding led leader
  led-state a = ground arith

  led-own :
      task_find_by_pid led (led.tasks (process_current_task led)).pid ≡ process_current_task led
  led-own =
      ap (λ (t : Task). task_find_by_pid led t.pid) led-task
      ∙ unfold leader in
        task_find_by_pid-same k led (k.tasks cur).pid led-state led-pid
        ∙ unfold cur in own ∙ sym led-current

  led-cur_ne : process_current_task led ≢ 0
  led-cur_ne z = cur_ne (sym (led-current ∙ unfold cur in refl) ∙ z)

  -- what the two accessors read, of the pid 0
  reads :
      (f : Task → ℤ)
      → (if (process_current_task led == 0)
            || (task_find_by_pid led (led.tasks (process_current_task led)).pid == 0)
          then neg_one
          else f (led.tasks (task_find_by_pid led (led.tasks (process_current_task led)).pid)))
        ≡ f leader
  reads f =
      no_null (process_current_task led) _ _ _ led-cur_ne (λ z. led-cur_ne (sym led-own ∙ z))
      ∙ ap (λ p. f (led.tasks p)) led-own
      ∙ ap f led-task

  again : process_setsid led ≡ (neg_one, led)
  unfolding process_setsid
  again =
      ne_test (process_current_task led) 0 _ _ led-cur_ne
      ∙ is_leader _ _ (
          ap (λ (t : Task). t.pgid ==ℤ t.pid) led-task
          ∙ unfold leader in ==ℤ_refl (k.tasks cur).pid)

  -- Where the current task is found under its own pid and does not lead its process group,
  -- `process_setsid` returns its pid, which is then its session and its process group as
  -- `process_getsid` and `process_getpgid` report them, and a second call fails and changes
  -- nothing.
  pub process_setsid-leads :
      (process_setsid k).0 ≡ (k.tasks (process_current_task k)).pid
      × (process_getsid (process_setsid k).1 (pos 0) ≡ (k.tasks (process_current_task k)).pid)
      × (process_getpgid (process_setsid k).1 (pos 0) ≡ (k.tasks (process_current_task k)).pid)
      × (process_setsid (process_setsid k).1 ≡ (neg_one, (process_setsid k).1))
  process_setsid-leads = rw setsid-eq (
    unfold cur in refl,
    unfold process_getsid leader cur in reads (λ t. t.sid),
    unfold process_getpgid leader cur in reads (λ t. t.pgid),
    again,
  )
