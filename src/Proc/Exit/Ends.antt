-- ===== src/Proc/Exit/Ends.antt =====
-- src/sys/process.c: what the end of a task does to the lists of children.
use mathlib.Core.Bool.{false≢true}
use edge_os.Prelude.{
  ℕ, Bool, true, false, ◌≤◌, ◌≡◌, refl, sym, ap, ◌∙◌, subst, ◌≢◌, ◌⊎◌, inl, inr, Option, none, some,
  List, ◌∷◌, arith, ◌==◌, if◌then◌else◌,
}
use edge_os.Prelude.Int.{ℤ, pos, ◌==ℤ◌}
use edge_os.Dll.{has, erase, erase_absent, has-erase}
use edge_os.Task.{Kernel, Ptr, Task, proc_max_tasks}
use edge_os.Sched.Ops.{scheduler_task_set_zombie}
use edge_os.Proc.Table.{task_find_by_pid}
use edge_os.Proc.Table.Find.{pid-task_find_by_pid, task_find_by_pid-same}
use edge_os.Proc.Tree.{process_adopt_orphans, task_child_link, task_child_unlink}
use edge_os.Proc.Tree.Kids.{Kids, without, with_first, task_child_unlink-Kids}
use edge_os.Proc.Tree.Link.{task_child_link-Kids}
use edge_os.Proc.Tree.Adopt.{Kids-same, Handed, handed, adopts}
use edge_os.Proc.Exit.{
  linux_sig_ign, set_exit_code, give_to_init, end_task, process_notify_parent_sigchld,
  process_kill_pid,
}
use edge_os.Proc.Exit.Parent.{parent_stays, sig-set_exit_code, parent-set_exit_code}
use edge_os.Proc.Exit.Place.{
  Same, Same-trans, Same-pid, Kids-Same, set_exit_code-Same, set_zombie-Same, notify-Same,
}

state-set_exit_code :
    (k : Kernel) (t : Ptr) (code : ℤ) (a : ℕ)
    → ((set_exit_code k t code).tasks a).state ≡ (k.tasks a).state
unfolding set_exit_code
state-set_exit_code k t code a = ground arith

-- The parent of `t` in the state `k` wants to know of the end of `t`, or there is none; or it
-- ignores SIGCHLD.
abbrev pub Hears : Kernel → ℕ → Type 0
Hears k t =
    ((k.tasks t).parent ≡ 0) ⊎ ((k.tasks (k.tasks t).parent).sig.sigchld_handler ≢ linux_sig_ign)

abbrev pub Ignores : Kernel → ℕ → Type 0
Ignores k t =
    ((k.tasks t).parent ≢ 0) × ((k.tasks (k.tasks t).parent).sig.sigchld_handler ≡ linux_sig_ign)

-- The lists of children in `k'`, when `t` has ended in the state `k`, `init` being the first process:
-- the children of `t` are with `init`, and so is `t` itself where its parent does not want to know,
-- and only there.
pub record AfterEnd (k k' : Kernel) (ks : ℕ → List ℕ) (t init : ℕ) : Type 0 where
  pub kept : Hears k t → Kids k' (handed ks t init (ks t))
  pub given : Ignores k t → Kids k' (with_first (without (handed ks t init (ks t)) t) init t)

AfterEnd-Same :
    (k k1 k2 : Kernel) (ks : ℕ → List ℕ) (t init : ℕ)
    → Same k1 k2
    → AfterEnd k k1 ks t init
    → AfterEnd k k2 ks t init
AfterEnd-Same k k1 k2 ks t init same e = record {
  kept = λ h. Kids-Same k1 k2 _ same (e.kept h);
  given = λ i. Kids-Same k1 k2 _ same (e.given i);
}

-- a task that is unlinked is unlinked again before it is linked
relinked :
    (k : Kernel) (ks : ℕ → List ℕ) (t init : ℕ)
    → t ≢ 0
    → init ≢ 0
    → Kids k ks
    → Kids (task_child_link (task_child_unlink k t) init t) (with_first (without ks t) init t)
relinked k ks t init t_ne init_ne tree =
    Kids-same _ (with_first (without (without ks t) t) init t) (with_first (without ks t) init t)
      (λ p p_ne.
        ap (λ xs. if p == init then t ∷ xs else xs) (erase_absent t (erase t (ks p)) (gone p p_ne)))
      (task_child_link-Kids (task_child_unlink k t) (without ks t) init t t_ne init_ne
        (task_child_unlink-Kids k ks t t_ne tree))
  where
    gone : (p : ℕ) → p ≢ 0 → has t (erase t (ks p)) ≡ false
    gone p p_ne = has-erase t t (ks p) (tree.lists p p_ne).distinct ∙ ground arith

heard-kept : (k : Kernel) (t : ℕ) → Hears k t → (give_to_init k t).0 ≡ k
unfolding give_to_init
heard-kept k t (inl orphan) = ground (arith, orphan)
heard-kept k t (inr heard) = ground (arith, heard)

ignored-given :
    (k : Kernel) (t init : ℕ)
    → init ≢ 0
    → task_find_by_pid k (pos 1) ≡ init
    → Ignores k t
    → (give_to_init k t).0 ≡ task_child_link (task_child_unlink k t) init t
unfolding give_to_init
ignored-given k t init ne e ignores =
    let p = ignores.0 in let q = ignores.1 in rw e (ground (arith, p, q, ne))

give_to_init-AfterEnd :
    (k : Kernel) (ks : ℕ → List ℕ) (t init : ℕ)
    → t ≢ 0
    → init ≢ 0
    → task_find_by_pid k (pos 1) ≡ init
    → Kids k (handed ks t init (ks t))
    → AfterEnd k (give_to_init k t).0 ks t init
give_to_init-AfterEnd k ks t init t_ne init_ne e tree = record {
  kept = λ h. subst (λ z. Kids z (handed ks t init (ks t))) (sym (heard-kept k t h)) tree;
  given = λ i.
      subst (λ z. Kids z (with_first (without (handed ks t init (ks t)) t) init t))
        (sym (ignored-given k t init init_ne e i))
        (relinked k (handed ks t init (ks t)) t init t_ne init_ne tree);
}

-- The parent and its handler are looked at after other changes, which leave them alone.
AfterEnd-earlier :
    (k k1 k2 : Kernel) (ks : ℕ → List ℕ) (t init : ℕ)
    → (k1.tasks t).parent ≡ (k.tasks t).parent
    → ((a : ℕ) → (k1.tasks a).sig ≡ (k.tasks a).sig)
    → AfterEnd k1 k2 ks t init
    → AfterEnd k k2 ks t init
AfterEnd-earlier k k1 k2 ks t init same sigs e =
    let handler : (k1.tasks (k1.tasks t).parent).sig.sigchld_handler
        ≡ (k.tasks (k.tasks t).parent).sig.sigchld_handler =
      ap (λ z. z.sigchld_handler) (sigs (k1.tasks t).parent)
      ∙ ap (λ z. (k.tasks z).sig.sigchld_handler) same in
    record {
      kept = λ h. e.kept (elim h as (λ x. Hears k1 t) [
        | inl orphan ↦ inl (same ∙ orphan)
        | inr heard ↦ inr (λ q. heard (sym handler ∙ q))
      ]);
      given = λ i. e.given (λ q. i.0 (sym same ∙ q), handler ∙ i.1);
    }

guarded :
    (p : ℕ) (b : Bool) (x y z : Option (ℤ × Kernel))
    → p ≢ 0
    → b ≡ false
    → (if p == 0 then x else if b then y else z) ≡ z
guarded p b x y z ne e = ground arith

module _ (k : Kernel) (ks : ℕ → List ℕ) (pid code : ℤ) (tree : Kids k ks)
    (t_ne : task_find_by_pid k pid ≢ 0) (init_ne : task_find_by_pid k (pos 1) ≢ 0)
    (not_init : (pid ==ℤ pos 1) ≡ false)
    (not_own : (k.tasks (task_find_by_pid k pid)).parent ≢ task_find_by_pid k pid)
    (bound : (a : ℕ) → has a (ks (task_find_by_pid k pid)) ≡ true → a ≤ proc_max_tasks) where
  t : Ptr
  t = task_find_by_pid k pid

  init : Ptr
  init = task_find_by_pid k (pos 1)

  coded : Kernel
  coded = set_exit_code k t code

  finds : (p : ℤ) → task_find_by_pid coded p ≡ task_find_by_pid k p
  unfolding coded
  finds p =
      task_find_by_pid-same k coded p (state-set_exit_code k t code)
        (Same-pid k coded (set_exit_code-Same k t code))

  apart : init ≢ t
  unfolding t init
  apart e =
      let same : pid ≡ pos 1 =
        sym (pid-task_find_by_pid k pid t_ne)
        ∙ ap (λ z. (k.tasks z).pid) (sym e)
        ∙ pid-task_find_by_pid k (pos 1) init_ne in
      false≢true (sym not_init ∙ ap (λ z. z ==ℤ pos 1) same ∙ refl)

  adopted : Handed t init coded ks (ks t) 0 (process_adopt_orphans coded (k.tasks t).pid (pos 1))
  adopted =
      let pid_t : (k.tasks t).pid ≡ pid = unfold t in pid-task_find_by_pid k pid t_ne in
      adopts coded ks (k.tasks t).pid (pos 1) t init
        (finds (k.tasks t).pid ∙ ap (task_find_by_pid k) pid_t ∙ unfold t in refl)
        (finds (pos 1) ∙ unfold init in refl)
        (Kids-Same k coded ks (unfold coded in set_exit_code-Same k t code) tree)
        (unfold t in bound) (unfold t in t_ne) (unfold init in init_ne) apart

  final : Kernel
  final =
      let (k2, parent) = give_to_init adopted.after t in
      process_notify_parent_sigchld (scheduler_task_set_zombie k2 t) parent

  -- what is left of the end of the task, of the state after the adoption
  end_task-eq : end_task k t code ≡ some final
  unfolding end_task final coded
  end_task-eq =
      ap
        (λ o. elim o as (λ x. Option Kernel) [
          | none ↦ none
          | some (m, k1) ↦ some (
              process_notify_parent_sigchld (scheduler_task_set_zombie (give_to_init k1 t).0 t)
                (give_to_init k1 t).1)
        ])
        adopted.result

  parent_still : (adopted.after.tasks t).parent ≡ (k.tasks t).parent
  parent_still =
      let moved : (coded.tasks t).parent ≡ (k.tasks t).parent =
        unfold coded in parent-set_exit_code k t code t in
      parent_stays coded adopted.after ks t init (unfold t in t_ne) (unfold init in init_ne)
        (λ q. unfold t in not_own (unfold t in sym moved ∙ q))
        (Kids-Same k coded ks (unfold coded in set_exit_code-Same k t code) tree) adopted.kids
      ∙ moved

  sigs_still : (a : ℕ) → (adopted.after.tasks a).sig ≡ (k.tasks a).sig
  sigs_still a =
      ap (λ (b : Task). b.sig) (adopted.bodies a) ∙ (unfold coded in sig-set_exit_code k t code a)

  final-AfterEnd : AfterEnd k final ks t init
  unfolding final
  final-AfterEnd =
      let k1 = adopted.after in
      let (k2, parent) = give_to_init k1 t in
      let k3 = scheduler_task_set_zombie k2 t in
      let inits : task_find_by_pid k1 (pos 1) ≡ init =
        task_find_by_pid-same coded k1 (pos 1) (λ a. ap (λ b. b.state) (adopted.bodies a))
          (λ a. ap (λ b. b.pid) (adopted.bodies a))
        ∙ finds (pos 1)
        ∙ unfold init in refl in
      AfterEnd-Same k k2 _ ks t init
        (Same-trans k2 k3 _ (set_zombie-Same k2 t) (notify-Same k3 parent))
        (AfterEnd-earlier k k1 k2 ks t init parent_still sigs_still (
          give_to_init-AfterEnd k1 ks t init (unfold t in t_ne) (unfold init in init_ne) inits
            adopted.kids))

  -- Where the lists of children are right and those in that of the task are in the table, the pid
  -- has a slot and is not that of the first process, which has a slot too, and the task is not its
  -- own parent, `process_kill_pid` returns 0. In the state that it leaves the
  -- children of the task are in front of those of the first process, in reversed order, and the
  -- task has none. The task is the first child of the first process where its parent ignores
  -- SIGCHLD; where it does not, or there is no parent, the task stays where it was. No other list
  -- of children changes.
  pub process_kill_pid-AfterEnd :
      (k' : Kernel) × (process_kill_pid k pid code ≡ some (pos 0, k'))
      × AfterEnd k k' ks (task_find_by_pid k pid) (task_find_by_pid k (pos 1))
  unfolding process_kill_pid t init
  process_kill_pid-AfterEnd = (
    final,
    guarded (task_find_by_pid k pid) (pid ==ℤ pos 1) _ _ _ t_ne not_init
        ∙ ap
            (λ o. elim o as (λ x. Option (ℤ × Kernel)) [ none ↦ none | some k1 ↦ some (pos 0, k1) ])
            end_task-eq,
    final-AfterEnd,
  )
