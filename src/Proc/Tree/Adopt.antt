-- ===== src/Proc/Tree/Adopt.antt =====
-- src/sys/process.c: `process_adopt_orphans` hands the children of a task that ends to another.
use mathlib.Core.Bool.{false≢true}
use edge_os.Prelude.{
  eq_test, ne_test, ℕ, zero, suc, ◌+◌, ◌≤◌, ◌<◌, Option, some, true, false, ◌≡◌, refl, sym, subst,
  ◌∙◌, ◌≢◌, inl, inr, List, [], ◌∷◌, arith, ◌==◌, if◌then◌else◌, ℕ_discrete, Bool-cases, ap, length,
}
use edge_os.Prelude.Int.{ℤ}
use edge_os.Dll.{
  has, erase, IsDll, Distinct, head_or, erase_absent, erase-same, has-here, ne_of_has, cell-ne-zero,
  erase-has, length-erase, erase-Distinct, has-rest, not-has-rest,
}
use edge_os.Task.{Kernel, proc_max_tasks}
use edge_os.Proc.Table.{task_find_by_pid}
use edge_os.Proc.Tree.{task_child_link, adopt_children, adopt_fuel, process_adopt_orphans}
use edge_os.Proc.Tree.Links.{sp, sn, parent_of, first_of, body}
use edge_os.Proc.Tree.Kids.{Kids, without, with_first}
use edge_os.Proc.Tree.Link.{task_child_link-Kids, ppid-task_child_link, body-task_child_link}

-- the first list, turned round, in front of the second
abbrev pub rev_onto : List ℕ → List ℕ → List ℕ
rev_onto [] ys = ys
rev_onto (x ∷ xs) ys = rev_onto xs (x ∷ ys)

-- The lists of children after the children of `from` went to `to`.
abbrev pub handed : (ℕ → List ℕ) → ℕ → ℕ → List ℕ → ℕ → List ℕ
handed ks from to xs p = if p == from then [] else if p == to then rev_onto xs (ks to) else ks p

pub Kids-same :
    (k : Kernel) (ks ks' : ℕ → List ℕ) → ((p : ℕ) → p ≢ 0 → ks p ≡ ks' p) → Kids k ks → Kids k ks'
Kids-same k ks ks' same tree = record {
  lists = λ p ne. subst (λ z. IsDll (sp k) (sn k) (first_of k p) z) (same p ne) (tree.lists p ne);
  parent_is = λ p a ne h. tree.parent_is p a ne (subst (λ z. has a z ≡ true) (sym (same p ne)) h);
  listed =
      λ a a_ne ne. subst (λ z. has a z ≡ true) (same (parent_of k a) ne) (tree.listed a a_ne ne);
  alone = tree.alone;
}

-- A task that has one parent is in no other list.
elsewhere :
    (k : Kernel) (ks : ℕ → List ℕ) (p q a : ℕ)
    → Kids k ks
    → p ≢ 0
    → q ≢ 0
    → q ≢ p
    → has a (ks p) ≡ true
    → has a (ks q) ≡ false
elsewhere k ks p q a tree p_ne q_ne ne h = elim (Bool-cases (has a (ks q))) [
  | inl i ↦ absurd (ne (sym (tree.parent_is q a q_ne i) ∙ tree.parent_is p a p_ne h))
  | inr i ↦ i
]

-- What the walk leaves: the number of children that it moved, and the state.
pub record Handed (from to : ℕ) (k : Kernel) (ks : ℕ → List ℕ) (xs : List ℕ) (moved : ℕ)
    (r : Option (ℕ × Kernel)) : Type 0 where
  pub after : Kernel
  pub result : r ≡ some (moved + length xs, after)
  pub kids : Kids after (handed ks from to xs)
  pub told : (a : ℕ) → has a xs ≡ true → (after.tasks a).ppid ≡ (k.tasks to).pid
  pub untold : (a : ℕ) → has a xs ≡ false → (after.tasks a).ppid ≡ (k.tasks a).ppid
  pub bodies : (a : ℕ) → body (after.tasks a) ≡ body (k.tasks a)

module _ (from to : ℕ) (from_ne : from ≢ 0) (to_ne : to ≢ 0) (ne : to ≢ from) where
  -- what one turn of the walk does to the lists
  turn :
      (k : Kernel) (ks : ℕ → List ℕ) (x : ℕ) (xs : List ℕ)
      → Kids k ks
      → ks from ≡ x ∷ xs
      → (p : ℕ) → p ≢ 0
      → with_first (without ks x) to x p
        ≡ (if p == from then xs else if p == to then x ∷ ks to else ks p)
  turn k ks x xs tree e p p_ne =
      let inside : has x (ks from) ≡ true = rw e (has-here x x xs refl) in
      elim (ℕ_discrete p from) [
        | yes q ↦
            ne_test p to _ _ (λ r. ne (sym r ∙ q))
            ∙ ap (λ z. erase x (ks z)) q
            ∙ rw e (erase-same x x xs refl)
            ∙ sym (eq_test p from xs _ q)
        | no q ↦
            let out = erase_absent x (ks p) (elsewhere k ks from p x tree from_ne p_ne q inside) in
            rw (ne_test p from xs (if p == to then x ∷ ks to else ks p) q) (elim (ℕ_discrete p to) [
              | yes r ↦
                  rw (eq_test p to (x ∷ ks to) (ks p) r)
                    (rw (eq_test p to (x ∷ erase x (ks p)) (erase x (ks p)) r) (rw out (rw r refl)))
              | no r ↦
                  rw (ne_test p to (x ∷ ks to) (ks p) r)
                    (rw (ne_test p to (x ∷ erase x (ks p)) (erase x (ks p)) r) out)
            ])
      ]

  handed-turn :
      (k : Kernel) (ks : ℕ → List ℕ) (x : ℕ) (xs : List ℕ) (p : ℕ)
      → handed (λ p. if p == from then xs else if p == to then x ∷ ks to else ks p) from to xs p
        ≡ handed ks from to (x ∷ xs) p
  handed-turn k ks x xs p = elim (ℕ_discrete p from) [
    | yes q ↦ eq_test p from [] _ q ∙ sym (eq_test p from [] _ q)
    | no q ↦
        ne_test p from [] _ q
        ∙ elim (ℕ_discrete p to) [
          | yes r ↦
              eq_test p to _ _ r
              ∙ ap (rev_onto xs) (ne_test to from xs _ ne ∙ eq_test to to (x ∷ ks to) _ refl)
              ∙ sym (eq_test p to _ _ r)
          | no r ↦
              ne_test p to _ _ r
              ∙ ne_test p from xs _ q
              ∙ ne_test p to (x ∷ ks to) (ks p) r
              ∙ sym (ne_test p to _ _ r)
        ]
        ∙ sym (ne_test p from [] _ q)
  ]

  pub adopt_children-Handed :
      (fuel : ℕ) (k : Kernel) (ks : ℕ → List ℕ) (xs : List ℕ) (moved : ℕ)
      → Kids k ks
      → ks from ≡ xs
      → length xs < fuel
      → Handed from to k ks xs moved (adopt_children fuel k to (head_or xs 0) moved)
  unfolding adopt_children
  adopt_children-Handed zero k ks xs moved tree e h = absurd (omega arith)
  adopt_children-Handed (suc fuel) k ks [] moved tree e h = record {
    after = k;
    result = ap (λ n. some (n, k)) (omega arith);
    kids =
        Kids-same k ks (handed ks from to [])
          (λ p p_ne. elim (ℕ_discrete p from) [
            | yes q ↦ ap ks q ∙ e ∙ sym (eq_test p from [] _ q)
            | no q ↦ elim (ℕ_discrete p to) [
              | yes r ↦ ap ks r ∙ sym (ne_test p from [] _ q ∙ eq_test p to (ks to) _ r)
              | no r ↦ sym (ne_test p from [] _ q ∙ ne_test p to (ks to) _ r)
            ]
          ])
          tree;
    told = λ a i. absurd (false≢true i);
    untold = λ a i. refl;
    bodies = λ a. refl;
  }
  adopt_children-Handed (suc fuel) k ks (x ∷ xs) moved tree e h =
      let l = subst (λ z. IsDll (sp k) (sn k) (first_of k from) z) e (tree.lists from from_ne) in
      let x_ne : x ≢ 0 = l.chain.0 in
      let k1 = task_child_link k to x in
      let ks1 : ℕ → List ℕ = λ p. if p == from then xs else if p == to then x ∷ ks to else ks p in
      let tree1 : Kids k1 ks1 =
        Kids-same k1 (with_first (without ks x) to x) ks1 (turn k ks x xs tree e)
          (task_child_link-Kids k ks to x x_ne to_ne tree) in
      let rest =
        adopt_children-Handed fuel k1 ks1 xs (moved + 1) tree1 (eq_test from from xs _ refl)
          (omega arith) in
      let ppid1 = ppid-task_child_link k to x x_ne to_ne in
      let body1 = body-task_child_link k to x x_ne to_ne in
      let pid1 : (k1.tasks to).pid ≡ (k.tasks to).pid = ap (λ b. b.pid) (body1 to) in
      record {
        after = rest.after;
        result =
            ne_test x 0 _ _ x_ne
            ∙ ap (λ c. adopt_children fuel k1 to c (moved + 1)) l.chain.2
            ∙ rest.result
            ∙ ap (λ n. some (n, rest.after)) (omega arith);
        kids =
            Kids-same rest.after (handed ks1 from to xs) (handed ks from to (x ∷ xs))
              (λ p p_ne. handed-turn k ks x xs p) rest.kids;
        told = λ a i. elim (Bool-cases (has a xs)) [
          | inl j ↦ rest.told a j ∙ pid1
          | inr j ↦ rest.untold a j ∙ ppid1 a ∙ eq_test a x _ _ (only a x xs i j)
        ];
        untold = λ a i.
            rest.untold a (not-has-rest a x xs i)
            ∙ ppid1 a
            ∙ ne_test a x _ _ (λ q. false≢true (sym i ∙ has-here a x xs q));
        bodies = λ a. rest.bodies a ∙ body1 a;
      }
    where
      only : (a x : ℕ) (xs : List ℕ) → has a (x ∷ xs) ≡ true → has a xs ≡ false → a ≡ x
      only a x xs i j = elim (ℕ_discrete a x) [
        | yes q ↦ q
        | no q ↦ absurd (false≢true (sym j ∙ has-rest a x xs q i))
      ]

-- Different cells of a range are at most as many as the range.
pub count :
    (n : ℕ) (xs : List ℕ)
    → Distinct xs
    → ((a : ℕ) → has a xs ≡ true → (1 ≤ a) × (a ≤ n))
    → length xs ≤ n
count zero [] d h = omega arith
count zero (x ∷ xs) d h = let b = h x (has-here x x xs refl) in omega arith
count (suc n) xs d h = elim (Bool-cases (has (suc n) xs)) [
  | inl i ↦
      let shorter = length-erase (suc n) xs i in
      let rest = count n (erase (suc n) xs) (erase-Distinct (suc n) xs d) λ a j.
        let back = erase-has a (suc n) xs d j in
        let b = h a back.1 in let ne = back.0 in (b.0, omega arith) in
      omega arith
  | inr i ↦
      let rest =
        count n xs d
          λ a j. let b = h a j in let ne : a ≢ suc n = ne_of_has xs j i in (b.0, omega arith) in
      omega arith
]

-- Where both pids have slots, different ones, `process_adopt_orphans` ends within its fuel, it
-- returns the number of the children of the first task, and puts them in front of the children
-- of the second, in reversed order; their ppid is then the pid of the second. The first task
-- has no children left, the other lists of children stay, and so do all other ppids.
pub process_adopt_orphans-Handed :
    (k : Kernel) (ks : ℕ → List ℕ) (from_ppid to_ppid : ℤ)
    → Kids k ks
    → ((a : ℕ) → has a (ks (task_find_by_pid k from_ppid)) ≡ true → a ≤ proc_max_tasks)
    → task_find_by_pid k from_ppid ≢ 0
    → task_find_by_pid k to_ppid ≢ 0
    → task_find_by_pid k to_ppid ≢ task_find_by_pid k from_ppid
    → Handed
        (task_find_by_pid k from_ppid)
        (task_find_by_pid k to_ppid)
        k
        ks
        (ks (task_find_by_pid k from_ppid))
        0
        (process_adopt_orphans k from_ppid to_ppid)
unfolding process_adopt_orphans
process_adopt_orphans-Handed k ks from_ppid to_ppid tree bound from_ne to_ne ne =
    let from = task_find_by_pid k from_ppid in
    let to = task_find_by_pid k to_ppid in
    let l = tree.lists from from_ne in
    let few : length (ks from) ≤ proc_max_tasks = count proc_max_tasks (ks from) l.distinct λ a h.
      let a_ne = cell-ne-zero (sp k) (sn k) 0 a (ks from) l.chain h in (omega arith, bound a h) in
    let walk =
      adopt_children-Handed from to from_ne to_ne ne adopt_fuel k ks (ks from) 0 tree refl
        (omega arith) in
    subst (Handed from to k ks (ks from) 0)
      (sym (ne_test from 0 _ _ from_ne ∙ ap (λ c. adopt_children adopt_fuel k to c 0) l.head_eq))
      walk

-- the same, of slots that the two pids are known to have
pub adopts :
    (k : Kernel) (ks : ℕ → List ℕ) (from_ppid to_ppid : ℤ) (from to : ℕ)
    → task_find_by_pid k from_ppid ≡ from
    → task_find_by_pid k to_ppid ≡ to
    → Kids k ks
    → ((a : ℕ) → has a (ks from) ≡ true → a ≤ proc_max_tasks)
    → from ≢ 0
    → to ≢ 0
    → to ≢ from
    → Handed from to k ks (ks from) 0 (process_adopt_orphans k from_ppid to_ppid)
adopts k ks from_ppid to_ppid from to from_eq to_eq tree =
    let start = task_find_by_pid k from_ppid in
    subst
      (λ f.
        ((a : ℕ) → has a (ks f) ≡ true → a ≤ proc_max_tasks)
        → f ≢ 0
        → to ≢ 0
        → to ≢ f
        → Handed f to k ks (ks f) 0 (process_adopt_orphans k from_ppid to_ppid))
      from_eq
      (subst
        (λ z.
          ((a : ℕ) → has a (ks start) ≡ true → a ≤ proc_max_tasks)
          → start ≢ 0
          → z ≢ 0
          → z ≢ start
          → Handed start z k ks (ks start) 0 (process_adopt_orphans k from_ppid to_ppid))
        to_eq (process_adopt_orphans-Handed k ks from_ppid to_ppid tree))
