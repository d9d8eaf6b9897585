-- ===== src/Proc/Tree/Links.antt =====
-- src/sys/process.c: what the two functions on the lists of children write, field by field.
use edge_os.Prelude.{ℕ, ◌≡◌, ◌≢◌, arith, ◌==◌, if◌then◌else◌, ap, refl, ◌∙◌}
use edge_os.Prelude.Int.{pos}
use edge_os.Dll.{pv_erase, nx_erase, pv_cons, nx_cons}
use edge_os.Task.{Kernel, Task}
use edge_os.Proc.Tree.{task_child_unlink, link_first, hook_child, hook_first, hook_parent}

abbrev pub sp : Kernel → ℕ → ℕ
sp k a = (k.tasks a).sibling_prev

abbrev pub sn : Kernel → ℕ → ℕ
sn k a = (k.tasks a).sibling_next

abbrev pub parent_of : Kernel → ℕ → ℕ
parent_of k a = (k.tasks a).parent

abbrev pub first_of : Kernel → ℕ → ℕ
first_of k a = (k.tasks a).first_child

-- the task without its place among the processes
abbrev pub body : Task → Task
body t = record t { ppid = pos 0; parent = 0; first_child = 0; sibling_prev = 0; sibling_next = 0 }

module _ (k : Kernel) (t : ℕ) (t_ne : t ≢ 0) where
  pub prev-task_child_unlink :
      (a : ℕ) → a ≢ 0 → sp k t ≢ t → sp (task_child_unlink k t) a ≡ pv_erase (sp k) (sn k) t a
  unfolding task_child_unlink
  prev-task_child_unlink a h p = ground arith

  pub next-task_child_unlink :
      (a : ℕ) → a ≢ 0 → sn (task_child_unlink k t) a ≡ nx_erase (sp k) (sn k) t a
  unfolding task_child_unlink
  next-task_child_unlink a h = ground arith

  pub parent-task_child_unlink :
      (a : ℕ) → parent_of (task_child_unlink k t) a ≡ (if a == t then 0 else parent_of k a)
  unfolding task_child_unlink
  parent-task_child_unlink a = ground arith

  pub first-task_child_unlink :
      (a : ℕ)
      → a ≢ 0
      → first_of (task_child_unlink k t) a ≡ (
          if sp k t == 0
          then (if a == parent_of k t then sn k t else first_of k a)
          else first_of k a)
  unfolding task_child_unlink
  first-task_child_unlink a h = ground arith

  pub ppid-task_child_unlink : (a : ℕ) → ((task_child_unlink k t).tasks a).ppid ≡ (k.tasks a).ppid
  unfolding task_child_unlink
  ppid-task_child_unlink a = ground arith

  pub body-task_child_unlink : (a : ℕ) → body ((task_child_unlink k t).tasks a) ≡ body (k.tasks a)
  unfolding task_child_unlink
  body-task_child_unlink a = ground arith

module _ (k : Kernel) (q t : ℕ) where
  prev-hook_child : (a : ℕ) → sp (hook_child k q t) a ≡ sp k a
  unfolding hook_child
  prev-hook_child a = ground arith

  next-hook_child : (a : ℕ) → sn (hook_child k q t) a ≡ (if a == t then first_of k q else sn k a)
  unfolding hook_child
  next-hook_child a = ground arith

  parent-hook_child :
      (a : ℕ) → parent_of (hook_child k q t) a ≡ (if a == t then q else parent_of k a)
  unfolding hook_child
  parent-hook_child a = ground arith

  first-hook_child : (a : ℕ) → first_of (hook_child k q t) a ≡ first_of k a
  unfolding hook_child
  first-hook_child a = ground arith

  ppid-hook_child : (a : ℕ) → ((hook_child k q t).tasks a).ppid ≡ (k.tasks a).ppid
  unfolding hook_child
  ppid-hook_child a = ground arith

  body-hook_child : (a : ℕ) → body ((hook_child k q t).tasks a) ≡ body (k.tasks a)
  unfolding hook_child
  body-hook_child a = ground arith

  prev-hook_first :
      (a : ℕ)
      → sp (hook_first k q t) a
        ≡ (if first_of k q == 0 then sp k a else if a == first_of k q then t else sp k a)
  unfolding hook_first
  prev-hook_first a = ground arith

  next-hook_first : (a : ℕ) → sn (hook_first k q t) a ≡ sn k a
  unfolding hook_first
  next-hook_first a = ground arith

  parent-hook_first : (a : ℕ) → parent_of (hook_first k q t) a ≡ parent_of k a
  unfolding hook_first
  parent-hook_first a = ground arith

  first-hook_first : (a : ℕ) → first_of (hook_first k q t) a ≡ first_of k a
  unfolding hook_first
  first-hook_first a = ground arith

  ppid-hook_first : (a : ℕ) → ((hook_first k q t).tasks a).ppid ≡ (k.tasks a).ppid
  unfolding hook_first
  ppid-hook_first a = ground arith

  body-hook_first : (a : ℕ) → body ((hook_first k q t).tasks a) ≡ body (k.tasks a)
  unfolding hook_first
  body-hook_first a = ground arith

  prev-hook_parent : (a : ℕ) → sp (hook_parent k q t) a ≡ sp k a
  unfolding hook_parent
  prev-hook_parent a = ground arith

  next-hook_parent : (a : ℕ) → sn (hook_parent k q t) a ≡ sn k a
  unfolding hook_parent
  next-hook_parent a = ground arith

  parent-hook_parent : (a : ℕ) → parent_of (hook_parent k q t) a ≡ parent_of k a
  unfolding hook_parent
  parent-hook_parent a = ground arith

  first-hook_parent :
      (a : ℕ) → first_of (hook_parent k q t) a ≡ (if a == q then t else first_of k a)
  unfolding hook_parent
  first-hook_parent a = ground arith

  ppid-hook_parent :
      (a : ℕ)
      → ((hook_parent k q t).tasks a).ppid ≡ (if a == t then (k.tasks q).pid else (k.tasks a).ppid)
  unfolding hook_parent
  ppid-hook_parent a = ground arith

  body-hook_parent : (a : ℕ) → body ((hook_parent k q t).tasks a) ≡ body (k.tasks a)
  unfolding hook_parent
  body-hook_parent a = ground arith

module _ (k : Kernel) (q t : ℕ) where
  pub prev-link_first :
      (a : ℕ)
      → a ≢ 0
      → sp k t ≡ 0
      → first_of k q ≢ t
      → sp (link_first k q t) a ≡ pv_cons (sp k) (sn k) t (first_of k q) a
  unfolding link_first
  prev-link_first a h z f =
      let k1 = hook_child k q t in
      rw (prev-hook_parent (hook_first k1 q t) q t a) (
        rw (prev-hook_first k1 q t a)
          (rw (prev-hook_child k q t a) (rw (first-hook_child k q t q) (ground arith))))

  pub next-link_first : (a : ℕ) → sn (link_first k q t) a ≡ nx_cons (sp k) (sn k) t (first_of k q) a
  unfolding link_first
  next-link_first a =
      let k1 = hook_child k q t in
      next-hook_parent (hook_first k1 q t) q t a
      ∙ next-hook_first k1 q t a
      ∙ next-hook_child k q t a

  pub parent-link_first :
      (a : ℕ) → parent_of (link_first k q t) a ≡ (if a == t then q else parent_of k a)
  unfolding link_first
  parent-link_first a =
      let k1 = hook_child k q t in
      parent-hook_parent (hook_first k1 q t) q t a
      ∙ parent-hook_first k1 q t a
      ∙ parent-hook_child k q t a

  pub first-link_first :
      (a : ℕ) → first_of (link_first k q t) a ≡ (if a == q then t else first_of k a)
  unfolding link_first
  first-link_first a =
      let k1 = hook_child k q t in
      rw (first-hook_parent (hook_first k1 q t) q t a)
        (rw (first-hook_first k1 q t a) (rw (first-hook_child k q t a) refl))

  pub body-link_first : (a : ℕ) → body ((link_first k q t).tasks a) ≡ body (k.tasks a)
  unfolding link_first
  body-link_first a =
      let k1 = hook_child k q t in
      body-hook_parent (hook_first k1 q t) q t a
      ∙ body-hook_first k1 q t a
      ∙ body-hook_child k q t a

  -- The child takes over the pid of its parent.
  pub ppid-link_first :
      (a : ℕ)
      → ((link_first k q t).tasks a).ppid ≡ (if a == t then (k.tasks q).pid else (k.tasks a).ppid)
  unfolding link_first
  ppid-link_first a =
      let k1 = hook_child k q t in
      rw (ppid-hook_parent (hook_first k1 q t) q t a) (
        rw (ppid-hook_first k1 q t a) (
          rw (ppid-hook_child k q t a)
            (rw (ap (λ b. b.pid) (body-hook_first k1 q t q ∙ body-hook_child k q t q)) refl)))
