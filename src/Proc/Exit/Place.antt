-- ===== src/Proc/Exit/Place.antt =====
-- src/sys/process.c: the parts of a task that the scheduler and the signals leave alone, so that
-- the lists of children and the pids survive them.
use edge_os.Prelude.{
  ℕ, Bool, true, false, ◌≡◌, refl, sym, ap, ◌∙◌, ◌==◌, if◌then◌else◌, ℕ_discrete, List, subst,
}
use edge_os.Prelude.Int.{ℤ, pos}
use edge_os.Prelude.Maps.{upd, upd_ne, upd_self}
use edge_os.Dll.{has, Chain-frame}
use edge_os.Task.{Kernel, Ptr, Task, TaskState, Signals, unused, put, zero_signals}
use edge_os.Sched.Queue.{
  rq_remove_locked, rq_unlink_prev, rq_unlink_next, rq_clear, rq_push_tail_locked, rq_link_tail,
  set_rq_prev, set_rq_next, set_rq_head, set_rq_tail,
}
use edge_os.Sched.Ops.{
  remove_if_queued, assign, leave_other_cpu, set_assigned_cpu, set_state, enqueue_on, leave_queue,
  take_off, scheduler_task_make_runnable, scheduler_task_set_zombie, scheduler_task_set_blocked,
  scheduler_task_set_unused,
}
use edge_os.Proc.Tree.Kids.{Kids}
use edge_os.Proc.Tree.Links.{sp, sn, parent_of, first_of}
use edge_os.Proc.Exit.{
  set_sig, set_exit_code, wake_if_blocked, note_sigchld, process_notify_parent_sigchld,
}

abbrev pub place : Task → Task
place t = record t {
  state = unused;
  exit_code = pos 0;
  assigned_cpu = pos 0;
  on_runqueue = false;
  rq_prev = 0;
  rq_next = 0;
  sig = zero_signals;
}

pub record Same (k k' : Kernel) : Type 0 where
  pub places : (a : ℕ) → place (k'.tasks a) ≡ place (k.tasks a)
  pub memory : k'.regions ≡ k.regions

pub Same-trans : (k k1 k2 : Kernel) → Same k k1 → Same k1 k2 → Same k k2
Same-trans k k1 k2 p q = record {
  places = λ a. q.places a ∙ p.places a;
  memory = q.memory ∙ p.memory;
}

-- a write that spares the place of the task
pub Same-put : (k : Kernel) (t : Ptr) (u : Task) → place u ≡ place (k.tasks t) → Same k (put k t u)
Same-put k t u e = record {
  places = λ a. elim (ℕ_discrete a t) [
    | yes q ↦
        subst (λ z. place (upd k.tasks t u z) ≡ place (k.tasks z)) (sym q)
          (ap place (upd_self k.tasks t u) ∙ e)
    | no ne ↦ ap place (upd_ne k.tasks t u a ne)
  ];
  memory = refl;
}

Same-if : (k k1 k2 : Kernel) (b : Bool) → Same k k1 → Same k k2 → Same k (if b then k1 else k2)
Same-if k k1 k2 true p q = p
Same-if k k1 k2 false p q = q

Same-refl : (k : Kernel) → Same k k
Same-refl k = record { places = λ a. refl; memory = refl }

-- the functions on the queues
module _ (k : Kernel) where
  set_rq_prev-Same : (p v : Ptr) → Same k (set_rq_prev k p v)
  unfolding set_rq_prev
  set_rq_prev-Same p v = Same-put k p _ refl

  set_rq_next-Same : (p v : Ptr) → Same k (set_rq_next k p v)
  unfolding set_rq_next
  set_rq_next-Same p v = Same-put k p _ refl

  rq_clear-Same : (t : Ptr) → Same k (rq_clear k t)
  unfolding rq_clear
  rq_clear-Same t = Same-put k t _ refl

  set_rq_head-Same : (c : ℕ) (v : Ptr) → Same k (set_rq_head k c v)
  unfolding set_rq_head
  set_rq_head-Same c v = record { places = λ a. refl; memory = refl }

  set_rq_tail-Same : (c : ℕ) (v : Ptr) → Same k (set_rq_tail k c v)
  unfolding set_rq_tail
  set_rq_tail-Same c v = record { places = λ a. refl; memory = refl }

  set_assigned_cpu-Same : (t : Ptr) (c : ℕ) → Same k (set_assigned_cpu k t c)
  unfolding set_assigned_cpu
  set_assigned_cpu-Same t c = Same-put k t _ refl

  set_state-Same : (t : Ptr) (st : TaskState) → Same k (set_state k t st)
  unfolding set_state
  set_state-Same t st = Same-put k t _ refl

  assign-Same : (t : Ptr) (cpu : ℤ) (st : TaskState) → Same k (assign k t cpu st)
  unfolding assign
  assign-Same t cpu st = Same-put k t _ refl

  pub set_sig-Same : (t : Ptr) (s : Signals) → Same k (set_sig k t s)
  unfolding set_sig
  set_sig-Same t s = Same-put k t _ refl

  pub set_exit_code-Same : (t : Ptr) (code : ℤ) → Same k (set_exit_code k t code)
  unfolding set_exit_code
  set_exit_code-Same t code = Same-put k t _ refl

  unlink_prev-Same : (c : ℕ) (t : Ptr) → Same k (rq_unlink_prev k c t)
  unfolding rq_unlink_prev
  unlink_prev-Same c t = Same-if k _ _ _ (set_rq_head-Same c _) (set_rq_next-Same _ _)

  unlink_next-Same : (c : ℕ) (t : Ptr) → Same k (rq_unlink_next k c t)
  unfolding rq_unlink_next
  unlink_next-Same c t = Same-if k _ _ _ (set_rq_tail-Same c _) (set_rq_prev-Same _ _)

module _ (k : Kernel) where
  rq_remove_locked-Same : (c : ℕ) (t : Ptr) → Same k (rq_remove_locked k c t)
  unfolding rq_remove_locked
  rq_remove_locked-Same c t =
      let k1 = rq_unlink_prev k c t in
      let k2 = rq_unlink_next k1 c t in
      Same-if k _ _ _ (Same-refl k) (
        Same-if k _ _ _
          (Same-trans k k2 _ (Same-trans k k1 k2 (unlink_prev-Same k c t) (unlink_next-Same k1 c t))
            (rq_clear-Same k2 t))
          (Same-refl k))

  rq_link_tail-Same : (c : ℕ) (t : Ptr) → Same k (rq_link_tail k c t)
  unfolding rq_link_tail
  rq_link_tail-Same c t =
      let tail = (k.cpus c).rq_tail in
      let k1 = put k t (record (k.tasks t) { rq_prev = tail; rq_next = 0 }) in
      let k2 = if tail == 0 then set_rq_head k1 c t else set_rq_next k1 tail t in
      let k3 = set_rq_tail k2 c t in
      Same-trans k k3 _
        (Same-trans k k2 k3
          (Same-trans k k1 k2 (Same-put k t _ refl)
            (Same-if k1 _ _ (tail == 0) (set_rq_head-Same k1 c t) (set_rq_next-Same k1 tail t)))
          (set_rq_tail-Same k2 c t))
        (Same-put k3 t _ refl)

  remove_if_queued-Same : (c : ℕ) (t : Ptr) → Same k (remove_if_queued k c t)
  unfolding remove_if_queued
  remove_if_queued-Same c t = Same-if k _ _ _ (rq_remove_locked-Same c t) (Same-refl k)

  push-Same : (c : ℕ) (t : Ptr) → Same k (rq_push_tail_locked k c t)
  unfolding rq_push_tail_locked
  push-Same c t =
      Same-if k _ _ _ (Same-refl k) (Same-if k _ _ _ (Same-refl k) (rq_link_tail-Same c t))

  leave_other_cpu-Same : (t : Ptr) (c : ℕ) → Same k (leave_other_cpu k t c)
  unfolding leave_other_cpu
  leave_other_cpu-Same t c = Same-if k _ _ _ (rq_remove_locked-Same _ t) (Same-refl k)

module _ (k : Kernel) where
  enqueue_on-Same : (t : Ptr) (c : ℕ) → Same k (enqueue_on k t c)
  unfolding enqueue_on
  enqueue_on-Same t c =
      let k1 = leave_other_cpu k t c in
      let k2 = set_assigned_cpu k1 t c in
      let k3 = remove_if_queued k2 c t in
      let k4 = set_state k3 t _ in
      Same-trans k k4 _
        (Same-trans k k3 k4
          (Same-trans k k2 k3
            (Same-trans k k1 k2 (leave_other_cpu-Same k t c) (set_assigned_cpu-Same k1 t c))
            (remove_if_queued-Same k2 c t))
          (set_state-Same k3 t _))
        (push-Same k4 c t)

  take_off-Same : (t : Ptr) (st : TaskState) → Same k (take_off k t st)
  unfolding take_off leave_queue
  take_off-Same t st = Same-trans k _ _ (remove_if_queued-Same k _ t) (assign-Same _ t _ st)

  pub make_runnable-Same : (t : Ptr) (c : ℕ) → Same k (scheduler_task_make_runnable k t c)
  unfolding scheduler_task_make_runnable
  make_runnable-Same t c =
      Same-if k _ _ _ (Same-refl k) (Same-if k _ _ _ (Same-refl k) (enqueue_on-Same t _))

  pub set_zombie-Same : (t : Ptr) → Same k (scheduler_task_set_zombie k t)
  unfolding scheduler_task_set_zombie
  set_zombie-Same t =
      Same-if k _ _ _ (Same-refl k) (Same-if k _ _ _ (Same-refl k) (take_off-Same t _))

  pub set_blocked-Same : (t : Ptr) → Same k (scheduler_task_set_blocked k t)
  unfolding scheduler_task_set_blocked
  set_blocked-Same t =
      Same-if k _ _ _ (Same-refl k) (Same-if k _ _ _ (Same-refl k) (take_off-Same t _))

  pub set_unused-Same : (t : Ptr) → Same k (scheduler_task_set_unused k t)
  unfolding scheduler_task_set_unused leave_queue
  set_unused-Same t = Same-if k _ _ _ (Same-refl k) (
      Same-if k _ _ _ (Same-refl k)
        (Same-trans k _ _ (remove_if_queued-Same k _ t) (assign-Same _ t _ _)))

  pub wake-Same : (t : Ptr) → Same k (wake_if_blocked k t)
  unfolding wake_if_blocked
  wake-Same t = Same-if k _ _ _ (make_runnable-Same t _) (Same-refl k)

  note-Same : (t : Ptr) → Same k (note_sigchld k t)
  unfolding note_sigchld
  note-Same t = Same-if k _ _ _ (Same-refl k) (set_sig-Same k t _)

module _ (k : Kernel) where
  pub notify-Same : (t : Ptr) → Same k (process_notify_parent_sigchld k t)
  unfolding process_notify_parent_sigchld
  notify-Same t =
      Same-if k _ _ _ (Same-refl k)
        (Same-if k _ _ _ (Same-refl k) (Same-trans k _ _ (note-Same k t) (wake-Same _ t)))

-- the four links of every task
pub record SameLinks (k k' : Kernel) : Type 0 where
  pub prev : (a : ℕ) → sp k' a ≡ sp k a
  pub next : (a : ℕ) → sn k' a ≡ sn k a
  pub parent : (a : ℕ) → parent_of k' a ≡ parent_of k a
  pub first : (a : ℕ) → first_of k' a ≡ first_of k a

pub Kids-SameLinks : (k k' : Kernel) (ks : ℕ → List ℕ) → SameLinks k k' → Kids k ks → Kids k' ks
Kids-SameLinks k k' ks same tree = record {
  lists = λ p ne.
      let l = tree.lists p ne in
      record {
        chain =
            Chain-frame (sp k) (sn k) (sp k') (sn k') 0 (ks p) l.chain
              λ a h. (same.prev a, same.next a);
        head_eq = same.first p ∙ l.head_eq;
        distinct = l.distinct;
      };
  parent_is = λ p a ne h. same.parent a ∙ tree.parent_is p a ne h;
  listed = λ a a_ne ne.
      subst (λ z. has a (ks z) ≡ true) (sym (same.parent a))
        (tree.listed a a_ne (λ z. ne (same.parent a ∙ z)));
  alone = λ a a_ne z.
      let links = tree.alone a a_ne (sym (same.parent a) ∙ z) in
      (same.prev a ∙ links.0, same.next a ∙ links.1);
}

pub Kids-Same : (k k' : Kernel) (ks : ℕ → List ℕ) → Same k k' → Kids k ks → Kids k' ks
Kids-Same k k' ks same = Kids-SameLinks k k' ks record {
  prev = λ a. ap (λ u. u.sibling_prev) (same.places a);
  next = λ a. ap (λ u. u.sibling_next) (same.places a);
  parent = λ a. ap (λ u. u.parent) (same.places a);
  first = λ a. ap (λ u. u.first_child) (same.places a);
}

pub Same-pid : (k k' : Kernel) → Same k k' → (a : ℕ) → (k'.tasks a).pid ≡ (k.tasks a).pid
Same-pid k k' same a = ap (λ u. u.pid) (same.places a)
