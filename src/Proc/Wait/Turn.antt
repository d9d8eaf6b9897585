-- ===== src/Proc/Wait/Turn.antt =====
-- src/sys/process.c: what one turn of a wait finds, and what a reaped child leaves behind.
use mathlib.Core.Bool.{false≢true}
use edge_os.Prelude.{
  pick, ℕ, zero, suc, Bool, true, false, ◌≤◌, ◌<◌, ◌≡◌, refl, sym, ap, ◌∙◌, subst, ◌≢◌, Option,
  none, some, List, [], ◌∷◌, arith, ◌==◌, if◌then◌else◌, length, ℕ_discrete, ◌%◌,
}
use edge_os.Prelude.Int.{ℤ, pos, neg_one}
use edge_os.Prelude.Maps.{upd, upd_self, upd_ne}
use edge_os.Dll.{erase, has, Chain, head_or, has-here, has-there, has-rest, cell-ne-zero}
use edge_os.Proc.Tree.Adopt.{count}
use edge_os.Task.{Kernel, Task, zero_task, put, proc_max_tasks}
use edge_os.Sched.Ops.{scheduler_task_set_blocked, scheduler_task_set_unused}
use edge_os.Proc.Cred.{process_current_task}
use edge_os.Proc.Tree.{task_child_unlink}
use edge_os.Proc.Tree.Kids.{Kids, without, task_child_unlink-Kids}
use edge_os.Proc.Tree.Links.{sp, sn, parent_of, first_of, parent-task_child_unlink}
use edge_os.Proc.Exit.{is_zombie}
use edge_os.Proc.Exit.Place.{SameLinks, Kids-SameLinks, Kids-Same, set_unused-Same}
use edge_os.Proc.Wait.{
  Scan, found, behind, wait_scan, wait_fuel, wait_status, wait_matches, WaitTurn, returns, blocks,
  wait_turn, after_scan, reap, process_wait_pid,
}

module _ (k : Kernel) (matches : Task → Bool) where
  -- What the scan says of the children `xs`.
  pub record FoundIn (xs : List ℕ) (t : ℕ) : Type 0 where
    pub child : has t xs ≡ true
    pub wanted : matches (k.tasks t) ≡ true
    pub over : is_zombie (k.tasks t).state ≡ true

  -- No child that is waited for has ended.
  abbrev pub NoneOver : List ℕ → Type 0
  NoneOver xs =
      (a : ℕ) → has a xs ≡ true → matches (k.tasks a) ≡ true → is_zombie (k.tasks a).state ≡ false

  abbrev pub NoneWanted : List ℕ → Type 0
  NoneWanted xs = (a : ℕ) → has a xs ≡ true → matches (k.tasks a) ≡ false

  abbrev pub Scanned : Bool → List ℕ → Scan → Type 0
  Scanned before xs (found t) = FoundIn xs t
  Scanned before xs (behind true) = NoneOver xs
  Scanned before xs (behind false) = (before ≡ false) × NoneWanted xs

  cell :
      (a x : ℕ) (xs : List ℕ) (P : ℕ → Type 0)
      → has a (x ∷ xs) ≡ true
      → P x
      → (has a xs ≡ true → P a)
      → P a
  cell a x xs P h here there = elim (ℕ_discrete a x) [
    | yes e ↦ subst P (sym e) here
    | no ne ↦ there (has-rest a x xs ne h)
  ]

  passed :
      (before after : Bool) (x : ℕ) (xs : List ℕ) (s : Scan)
      → (matches (k.tasks x) ≡ true → is_zombie (k.tasks x).state ≡ false)
      → (after ≡ false → (before ≡ false) × (matches (k.tasks x) ≡ false))
      → Scanned after xs s
      → Scanned before (x ∷ xs) s
  passed before after x xs (found t) alive out s = record {
    child = has-there t x xs s.child;
    wanted = s.wanted;
    over = s.over;
  }
  passed before after x xs (behind true) alive out s = λ a h.
      cell a x xs (λ z. matches (k.tasks z) ≡ true → is_zombie (k.tasks z).state ≡ false) h alive
        (s a)
  passed before after x xs (behind false) alive out s =
      ((out s.0).0, λ a h. cell a x xs (λ z. matches (k.tasks z) ≡ false) h (out s.0).1 (s.1 a))

  -- The scan ends with an answer, and the answer is right.
  abbrev pub Answers : Bool → List ℕ → Option Scan → Type 0
  Answers before xs o = (s : Scan) × (o ≡ some s) × Scanned before xs s

  passed-Answers :
      (before after : Bool) (x : ℕ) (xs : List ℕ) (o : Option Scan)
      → (matches (k.tasks x) ≡ true → is_zombie (k.tasks x).state ≡ false)
      → (after ≡ false → (before ≡ false) × (matches (k.tasks x) ≡ false))
      → Answers after xs o
      → Answers before (x ∷ xs) o
  passed-Answers before after x xs o alive out (s, e, right) =
      (s, e, passed before after x xs s alive out right)

  wait_scan-Answers :
      (fuel prev : ℕ) (xs : List ℕ) (seen : Bool)
      → Chain (sp k) (sn k) prev xs
      → length xs < fuel
      → Answers seen xs (wait_scan fuel k matches (head_or xs 0) seen)
  unfolding wait_scan
  wait_scan-Answers zero prev xs seen c h = absurd (omega arith)
  wait_scan-Answers (suc fuel) prev [] true c h = (behind true, refl, λ a i. absurd (false≢true i))
  wait_scan-Answers (suc fuel) prev [] false c h =
      (behind false, refl, (refl, λ a i. absurd (false≢true i)))
  wait_scan-Answers (suc fuel) prev (x ∷ xs) seen c h =
      let next = λ (b : Bool).
        subst (λ z. Answers b xs (wait_scan fuel k matches z b)) (sym c.2)
          (wait_scan-Answers fuel x xs b c.3 (omega arith)) in
      pick (Answers seen (x ∷ xs)) (x == 0) _ _ (λ z. absurd (c.0 (ground arith)))
        (λ nz.
          pick (Answers seen (x ∷ xs)) (matches (k.tasks x)) _ _
            (λ hit.
              pick (Answers seen (x ∷ xs)) (is_zombie (k.tasks x).state) _ _
                (λ over. (
                  found x,
                  refl,
                  record { child = has-here x x xs refl; wanted = hit; over = over },
                ))
                (λ alive.
                  passed-Answers seen true x xs _ (λ e. alive) (λ e. absurd (false≢true (sym e)))
                    (next true)))
            (λ miss.
              passed-Answers seen seen x xs _ (λ e. absurd (false≢true (sym miss ∙ e)))
                (λ e. (e, miss)) (next seen)))

-- A reaped child that has no children of its own is off the list of its parent, and its slot is
-- zero.
module _ (k : Kernel) (ks : ℕ → List ℕ) (t : ℕ) (t_ne : t ≢ 0) (tree : Kids k ks)
    (childless : ks t ≡ []) where
  noted : Kernel
  noted = record k { released = (k.tasks t).pid ∷ k.released }

  cleared :
      (k' : Kernel)
      → Kids k' (without ks t)
      → parent_of k' t ≡ 0
      → SameLinks k' (put k' t zero_task)
  cleared k' tree' z =
      let links = tree'.alone t t_ne z in
      let first = (tree'.lists t t_ne).head_eq ∙ ap (λ xs. head_or (erase t xs) 0) childless in
      record {
        prev = λ a. field (λ u. u.sibling_prev) a (sym links.0);
        next = λ a. field (λ u. u.sibling_next) a (sym links.1);
        parent = λ a. field (λ u. u.parent) a (sym z);
        first = λ a. field (λ u. u.first_child) a (sym first);
      }
    where
      field :
          (f : Task → ℕ) (a : ℕ)
          → f zero_task ≡ f (k'.tasks t)
          → f ((put k' t zero_task).tasks a) ≡ f (k'.tasks a)
      field f a e = elim (ℕ_discrete a t) [
        | yes q ↦
            ap f (ap (upd k'.tasks t zero_task) q ∙ upd_self k'.tasks t zero_task)
            ∙ e
            ∙ ap (λ z. f (k'.tasks z)) (sym q)
        | no ne ↦ ap f (upd_ne k'.tasks t zero_task a ne)
      ]

  pub reap-Kids : Kids (reap k t) (without ks t) × ((reap k t).tasks t ≡ zero_task)
  unfolding reap noted
  reap-Kids =
      let tree1 =
        Kids-SameLinks k noted ks
          (record { prev = λ a. refl; next = λ a. refl; parent = λ a. refl; first = λ a. refl })
          tree in
      let tree2 = task_child_unlink-Kids noted ks t t_ne tree1 in
      let k2 = task_child_unlink noted t in
      let k3 = scheduler_task_set_unused k2 t in
      let same = set_unused-Same k2 t in
      let tree3 = Kids-Same k2 k3 (without ks t) same tree2 in
      let up : parent_of k3 t ≡ 0 =
        ap (λ u. u.parent) (same.places t)
        ∙ parent-task_child_unlink noted t t_ne t
        ∙ ground arith in
      (
        Kids-SameLinks k3 (put k3 t zero_task) (without ks t) (cleared k3 tree3 up) tree3,
        upd_self k3.tasks t zero_task,
      )

-- The children of `p` that have ended have no children themselves.
abbrev pub Childless : Kernel → (ℕ → List ℕ) → ℕ → Type 0
Childless k ks p = (a : ℕ) → has a (ks p) ≡ true → is_zombie (k.tasks a).state ≡ true → ks a ≡ []

-- What one turn of a wait for the children of `p` that match may do.
pub data TurnSpec (k : Kernel) (ks : ℕ → List ℕ) (p : ℕ) (matches : Task → Bool) (nohang : Bool)
    : WaitTurn → Type 0 where
  reaped :
      (t : ℕ)
      → FoundIn k matches (ks p) t
      → Kids (reap k t) (without ks t)
      → (reap k t).tasks t ≡ zero_task
      → TurnSpec k ks p matches nohang
          (returns (k.tasks t).pid (some (wait_status (k.tasks t).exit_code)) (reap k t))
  nobody : NoneWanted k matches (ks p) → TurnSpec k ks p matches nohang (returns neg_one none k)
  all_alive :
      NoneOver k matches (ks p)
      → nohang ≡ true
      → TurnSpec k ks p matches nohang (returns (pos 0) none k)
  sleeps :
      NoneOver k matches (ks p)
      → nohang ≡ false
      → TurnSpec k ks p matches nohang (blocks (scheduler_task_set_blocked k p))

scanned_turn :
    (k : Kernel) (p : ℕ) (matches : Task → Bool) (nohang : Bool) (s : Scan)
    → wait_scan wait_fuel k matches (first_of k p) false ≡ some s
    → wait_turn k p matches nohang ≡ some (after_scan k p nohang s)
unfolding wait_turn
scanned_turn k p matches nohang s e =
    ap
      (λ o. elim o as (λ x. Option WaitTurn) [
        | none ↦ none
        | some s ↦ some (after_scan k p nohang s)
      ])
      e

module _ (k : Kernel) (ks : ℕ → List ℕ) (tree : Kids k ks) where
  after_scan-TurnSpec :
      (p : ℕ) (matches : Task → Bool) (nohang : Bool) (s : Scan)
      → p ≢ 0
      → Childless k ks p
      → Scanned k matches false (ks p) s
      → TurnSpec k ks p matches nohang (after_scan k p nohang s)
  unfolding after_scan
  after_scan-TurnSpec p matches nohang (found t) p_ne young right =
      let l = tree.lists p p_ne in
      let done =
        reap-Kids k ks t (cell-ne-zero (sp k) (sn k) 0 t (ks p) l.chain right.child) tree
          (young t right.child right.over) in
      reaped t right done.0 done.1
  after_scan-TurnSpec p matches nohang (behind false) p_ne young right = nobody right.1
  after_scan-TurnSpec p matches true (behind true) p_ne young right = all_alive right refl
  after_scan-TurnSpec p matches false (behind true) p_ne young right = sleeps right refl

  wait_turn-TurnSpec :
      (p : ℕ) (matches : Task → Bool) (nohang : Bool)
      → p ≢ 0
      → Childless k ks p
      → ((a : ℕ) → has a (ks p) ≡ true → a ≤ proc_max_tasks)
      → (r : WaitTurn) × (wait_turn k p matches nohang ≡ some r) × TurnSpec k ks p matches nohang r
  wait_turn-TurnSpec p matches nohang p_ne young bound =
      let l = tree.lists p p_ne in
      let few : length (ks p) ≤ proc_max_tasks = count proc_max_tasks (ks p) l.distinct λ a h.
        let a_ne = cell-ne-zero (sp k) (sn k) 0 a (ks p) l.chain h in (omega arith, bound a h) in
      let (s, e, right) =
        subst (λ z. Answers k matches false (ks p) (wait_scan wait_fuel k matches z false))
          (sym l.head_eq)
          (wait_scan-Answers k matches wait_fuel 0 (ks p) false l.chain (omega arith)) in
      (
        after_scan k p nohang s,
        scanned_turn k p matches nohang s e,
        after_scan-TurnSpec p matches nohang s p_ne young right,
      )

-- Where the children of the task that have ended have no children themselves, a turn of
-- `process_wait_pid` ends within its fuel. It returns the pid and the status of a child of the
-- task that matches and has ended, which it reaps: the child leaves the list, no other list
-- changes, and its slot is zero. It returns -1 only where no child
-- matches. Where no child that matches has ended, it returns 0 under WNOHANG, and otherwise the
-- task is blocked.
pub process_wait_pid-TurnSpec :
    (k : Kernel) (ks : ℕ → List ℕ) (pid : ℤ) (options : ℕ)
    → Kids k ks
    → process_current_task k ≢ 0
    → Childless k ks (process_current_task k)
    → ((a : ℕ) → has a (ks (process_current_task k)) ≡ true → a ≤ proc_max_tasks)
    → (r : WaitTurn) × (process_wait_pid k pid options ≡ some r)
      × TurnSpec k ks
          (process_current_task k)
          (wait_matches pid (k.tasks (process_current_task k)).pgid)
          (options % 2 == 1)
          r
unfolding process_wait_pid
process_wait_pid-TurnSpec k ks pid options tree p_ne young bound =
    let p = process_current_task k in
    let (r, e, spec) =
      wait_turn-TurnSpec k ks tree p (wait_matches pid (k.tasks p).pgid) (options % 2 == 1) p_ne
        young bound in
    (r, differs p _ _ p_ne ∙ e, spec)
  where
    differs : (p : ℕ) (x y : Option WaitTurn) → p ≢ 0 → (if p == 0 then x else y) ≡ y
    differs p x y ne = ground arith
